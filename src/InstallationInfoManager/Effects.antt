-- ===== src/InstallationInfoManager/Effects.antt =====
-- manager-installation-info.js: what is stored for an installation and a token, and what is answered.
use ugo.Base.{
  reject-cong, ==_refl, ℕ, ◌≡◌, refl, sym, ap, ◌∙◌, inl, inr, String, true, List, [], ◌∷◌, ◌++◌,
  Option, none, some, str_eq_refl, arith, Option-cases, reject,
}
use mathlib.Core.Option
use ugo.Model.Installation.{
  InstallationInfo, InstallationInfoDocument, Repository, of_installation, set_installation_info,
  whole, same_number,
}
use ugo.Model.Message.{installation_info_set, installation_info_delete}
use ugo.World.{Services, World, fulfilled}
use ugo.Promise.{◌>>=◌, world_of}
use ugo.Promise.Cases.{fulfilled-then}
use ugo.GitHub.Accounts.{InstallationPages, get_installation_pages}
use ugo.InstallationInfoManager.{
  installation_info_id, set_installation_info_of, picked, evolved,
  get_installation_info_from_github, get_installation_info, delete_installation_infos,
}

abbrev pub installation_info_at :
    (s : Services) → s.InstallationInfoTable → String → Option InstallationInfoDocument
installation_info_at s t k = s.installation_info_collection.stored t k

module _ (s : Services) where
  open s use {installation_info_collection, installation_info_driver, installation_info_queries}

  pub get_installation_info_stored :
      (token : String) (id : ℕ) (w : World s) (d : InstallationInfoDocument)
      → w.online ≡ true
      → installation_info_at s w.installation_infos (installation_info_id id token) ≡ some d
      → get_installation_info s token id w ≡ fulfilled d.info w
  unfolding get_installation_info
  get_installation_info_stored token id w d on found = ground (
    arith,
    on,
    installation_info_driver.find_by_id-eq (installation_info_id id token) whole
          w.installation_infos
        ∙ ap (Option.map (installation_info_collection.project whole)) found,
    installation_info_queries.project-whole d,
  )

  get_installation_info_absent :
      (token : String) (id : ℕ) (w : World s)
      → w.online ≡ true
      → installation_info_at s w.installation_infos (installation_info_id id token) ≡ none
      → get_installation_info s token id w ≡ get_installation_info_from_github s token id w
  unfolding get_installation_info
  get_installation_info_absent token id w on absent = ground (
    arith,
    on,
    installation_info_driver.find_by_id-eq (installation_info_id id token) whole
          w.installation_infos
        ∙ ap (Option.map (installation_info_collection.project whole)) absent,
  )

  stored-set_installation_info :
      (id : ℕ) (i : InstallationInfo) (token : String) (v : World s)
      → v.online ≡ true
      → (t : s.InstallationInfoTable) × (set_installation_info_of s id i token v
          ≡ fulfilled i (record v {
            installation_infos = t;
            published = v.published ++ installation_info_set id i token ∷ [];
          }))
        × (installation_info_at s t (installation_info_id id token)
            ≡ some (record { installation_id = some id; info = i }))
  unfolding set_installation_info_of
  stored-set_installation_info id i token v up = (
    installation_info_collection.upsert_one (installation_info_id id token)
        (set_installation_info id i) v.installation_infos,
    ground (arith, up),
    rw
        (
          installation_info_driver.upsert_one-eq,
          installation_info_driver.stored-write,
          str_eq_refl (installation_info_id id token),
          installation_info_queries.apply-set_installation_info,
        )
        refl,
  )

  pub infos-reject :
      (id : Option ℕ) (t : s.InstallationInfoTable) (k : String)
      → installation_info_at s (installation_info_collection.delete_many (of_installation id) t) k
        ≡ reject (λ d. same_number d.installation_id id) (installation_info_at s t k)
  infos-reject id t k =
      installation_info_driver.stored-delete_many (of_installation id) t k
      ∙ reject-cong _ _ (installation_info_at s t k)
          (installation_info_queries.satisfies-of_installation id)

  online-pages :
      (token : String) (id : ℕ) (w : World s)
      → (world_of (get_installation_pages s token id w)).online ≡ w.online
  unfolding get_installation_pages
  online-pages token id w = ground arith

  fulfilled-evolved :
      (pages : InstallationPages) (o : Option (List Repository)) (v : World s)
      (i : InstallationInfo) (v' : World s)
      → evolved s pages o v ≡ fulfilled i v'
      → v ≡ v'
  fulfilled-evolved pages none v i v' h = cc
  fulfilled-evolved pages (some rs) v i v' h = cc

  -- Where the database answers: what getInstallationInfo is fulfilled with for an installation and a
  -- token, asking again is fulfilled with, without a request and without a change.
  pub get_installation_info_again :
      (token : String) (id : ℕ) (w : World s) (i : InstallationInfo) (w' : World s)
      → w.online ≡ true
      → get_installation_info s token id w ≡ fulfilled i w'
      → get_installation_info s token id w' ≡ fulfilled i w'
  unfolding get_installation_info_from_github
  get_installation_info_again token id w i w' on got =
      elim (Option-cases
        (installation_info_at s w.installation_infos (installation_info_id id token))) [
          | inr (d, found) ↦
              let same = sym (get_installation_info_stored token id w d on found) ∙ got in
              sym (ap (λ r. get_installation_info s token id (world_of r)) same) ∙ got
          | inl absent ↦
              let (pages, v1, asked, rest) =
                fulfilled-then (get_installation_pages s token id)
                  (λ pages. evolved s pages (picked pages.repositories) >>= λ i.
                    set_installation_info_of s id i token)
                  w i w' (sym (get_installation_info_absent token id w on absent) ∙ got) in
              let (i1, v, picks, set) =
                fulfilled-then (evolved s pages (picked pages.repositories))
                  (λ i. set_installation_info_of s id i token) v1 i w' rest in
              let up1 : v1.online ≡ true =
                sym (ap (λ r. (world_of r).online) asked) ∙ online-pages token id w ∙ on in
              let v_same = fulfilled-evolved pages (picked pages.repositories) v1 i1 v picks in
              let up : v.online ≡ true = sym (ap (λ u. u.online) v_same) ∙ up1 in
              let (t, done, stored) = stored-set_installation_info id i1 token v up in
              let ended = sym set ∙ done in
              let given : i ≡ i1 = cc in
              rw given (
                get_installation_info_stored token id w' _
                  (ap (λ r. (world_of r).online) ended ∙ up)
                  (ap
                      (λ r.
                        installation_info_at s (world_of r).installation_infos
                          (installation_info_id id token))
                      ended
                    ∙ stored))
        ]

  -- Where the database answers, deleteInstallationInfos deletes what is stored for the installation, or
  -- what has no id if the id is missing, and nothing else.
  pub delete_installation_infos_lem :
      (id : Option ℕ) (w : World s)
      → w.online ≡ true
      → (t : s.InstallationInfoTable) × (delete_installation_infos s id w
          ≡ fulfilled tt (record w {
            installation_infos = t;
            published = w.published ++ installation_info_delete id ∷ [];
          }))
        × ((k : String)
            → installation_info_at s t k
              ≡ reject
                  (λ d. same_number d.installation_id id)
                  (installation_info_at s w.installation_infos k))
  unfolding delete_installation_infos
  delete_installation_infos_lem id w on = (
    installation_info_collection.delete_many (of_installation id) w.installation_infos,
    ground (arith, on),
    infos-reject id w.installation_infos,
  )

  -- Where the database answers, and what is stored under an installation and a token, if anything,
  -- has the id of the installation: after deleteInstallationInfos for it, getInstallationInfo asks
  -- GitHub.
  pub get_installation_info-delete_installation_infos :
      (token : String) (id : ℕ) (w : World s)
      → w.online ≡ true
      → ((d : InstallationInfoDocument)
          → installation_info_at s w.installation_infos (installation_info_id id token) ≡ some d
          → d.installation_id ≡ some id)
      → let w1 = world_of (delete_installation_infos s (some id) w) in
        get_installation_info s token id w1 ≡ get_installation_info_from_github s token id w1
  get_installation_info-delete_installation_infos token id w on own =
      let (t, done, at) = delete_installation_infos_lem (some id) w on in
      get_installation_info_absent token id (world_of (delete_installation_infos s (some id) w))
        (ap (λ r. (world_of r).online) done ∙ on)
        (ap
            (λ r.
              installation_info_at s (world_of r).installation_infos
                (installation_info_id id token))
            done
          ∙ at (installation_info_id id token)
          ∙ gone)
    where
      gone :
          reject
            (λ d. same_number d.installation_id (some id))
            (installation_info_at s w.installation_infos (installation_info_id id token))
          ≡ none
      gone =
          elim (Option-cases
            (installation_info_at s w.installation_infos (installation_info_id id token))) [
              | inl absent ↦ rw absent refl
              | inr (d, found) ↦ rw (found, own d found, ==_refl id) refl
            ]
