-- ===== src/QueueRoutes/Found.antt =====
-- routes-pullrequest.js: what is found of a repository.
use mathlib.Core.List.{Memᴰ}
use ugo.Base.{◌≡◌, ◌↔◌, ◌⊎◌, inl, inr, subst, sym, String, true, List, [], ◌∷◌, some, arith}
use ugo.Model.PullRequest.{Info, PullRequestDocument, of_repository, info_only}
use ugo.World.{Services, World, fulfilled}
use ugo.Reply.{sent_infos, next_status}
use ugo.PullRequestManager.{get_repository_pull_requests_info}
use ugo.PullRequestManager.Effects.{document_at, repository_infos_sound, repository_infos_complete}
use ugo.QueueRoutes.{get_pull_requests, found_infos}

-- The information of a stored pull request of a repository.
abbrev pub IsKnownOf : (s : Services) → World s → String → String → Info → Type 0
IsKnownOf s w owner repo i =
    (k : String) × (d : PullRequestDocument) × (document_at s w.pull_requests k ≡ some d)
    × (d.owner ≡ some owner)
    × (d.repo ≡ some repo)
    × (i ≡ d.info)

module _ (s : Services) (owner repo : String) (w : World s) (on : w.online ≡ true) where
  abbrev infos : List Info
  infos = s.pull_request_collection.find (of_repository owner repo) info_only w.pull_requests

  route_lem : get_pull_requests s owner repo w ≡ fulfilled (found_infos infos) w
  unfolding get_pull_requests get_repository_pull_requests_info
  route_lem = ground (arith, on)

  mem_iff : (i : Info) → Memᴰ i infos ↔ IsKnownOf s w owner repo i
  mem_iff i = (
    repository_infos_sound s w on owner repo i,
    λ h.
        let (k, d, found, own, of, same) = h in
        subst (λ j. Memᴰ j infos) (sym same)
          (repository_infos_complete s w on owner repo k d found own of),
  )

  by_infos :
      (is : List Info)
      → ((i : Info) → Memᴰ i is ↔ IsKnownOf s w owner repo i)
      → get_pull_requests s owner repo w ≡ fulfilled (found_infos is) w
      → ((get_pull_requests s owner repo w ≡ fulfilled (next_status 404 ∷ []) w)
          × ((i : Info) → ¬ IsKnownOf s w owner repo i))
        ⊎ ((first : Info) × (rest : List Info) × (get_pull_requests s owner repo w
              ≡ fulfilled (sent_infos (first ∷ rest) ∷ []) w)
            × ((i : Info) → Memᴰ i (first ∷ rest) ↔ IsKnownOf s w owner repo i))
  by_infos [] h e = inl (e, λ i k. no_mem ((h i).1 k))
    where
      no_mem : {i : Info} → ¬ Memᴰ i []
      no_mem m = elim m [ ]
  by_infos (i ∷ is) h e = inr (i, is, e, h)

  -- Where the database answers: the route of the pull requests of a repository replies with the
  -- error 404 and none of the repository is stored, or with a list that is not empty and holds the
  -- information of exactly those that are stored; nothing changes.
  pub get_pull_requests_cases :
      ((get_pull_requests s owner repo w ≡ fulfilled (next_status 404 ∷ []) w)
        × ((i : Info) → ¬ IsKnownOf s w owner repo i))
      ⊎ ((first : Info) × (rest : List Info) × (get_pull_requests s owner repo w
            ≡ fulfilled (sent_infos (first ∷ rest) ∷ []) w)
          × ((i : Info) → Memᴰ i (first ∷ rest) ↔ IsKnownOf s w owner repo i))
  get_pull_requests_cases = by_infos infos mem_iff route_lem
