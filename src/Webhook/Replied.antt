-- ===== src/Webhook/Replied.antt =====
-- routes-webhook.js: promises that end with one reply.
use ugo.Base.{◌++◌, ◌≡◌, refl, inl, inr, String, true, List, [], ◌∷◌, any, Bool-cases}
use ugo.Model.Queue.{Item, has_number}
use ugo.World.{Services, World, Promise, fulfilled, failure}
use ugo.Promise.{◌>>=◌}
use ugo.Reply.{Reply, next_failure, sent_text}
use ugo.GitHub.Frame.{Settled-cases}
use ugo.InstallationManager as Installation
use ugo.InstallationManager.Effects.{get_installation_id_lem}
use ugo.InstallationInfoManager.{delete_installation_infos}
use ugo.InstallationInfoManager.Effects.{delete_installation_infos_lem}
use ugo.QueueManager as Queue
use ugo.QueueManager.Bookings.{booked}
use ugo.QueueManager.Effects.{add_item_new, add_item_present, remove_item_lem}
use ugo.PullRequestHandler.Handlers.{
  handle_closed, handle_opened, handle_sync, handle_status_change,
}
use ugo.PullRequestHandler.StatusChange.{handle_status_change_total}
use ugo.Webhook.Cases.{IsCaughtLaw, IsRouteLaw}
use ugo.Webhook.Installations.{uninstall}
use ugo.Model.Message.{installation_info_delete}
use ugo.Model.Installation.{owned_by, whole}
use ugo.Webhook.Chain.{replying, replying_or_next}

module _ {s : Services} where
  -- The one reply that a promise ends with.
  abbrev pub Answered : Promise s (List Reply) → World s → Type 0
  Answered m w = (r : Reply) × (w' : World s) × (m w ≡ fulfilled (r ∷ []) w')

  -- A promise that ends without a reply.
  abbrev pub Unanswered : Promise s (List Reply) → World s → Type 0
  Unanswered m w = (w' : World s) × (m w ≡ fulfilled [] w')

  abbrev pub IsFulfilled : {A : Type 0} → Promise s A → World s → Type 0
  IsFulfilled {A = A} m w = (a : A) × (w' : World s) × (m w ≡ fulfilled a w')

  pub Answered-replying :
      {A : Type 0} (m : Promise s A) (f : A → String) (w : World s)
      → IsFulfilled m w
      → Answered (replying s m f) w
  Answered-replying m f w (a, w', e) = (sent_text (f a), w', rw e refl)

  pub Answered-replying_or_next :
      {A : Type 0} (m : Promise s A) (f : A → String) (w : World s)
      → Answered (replying_or_next s m f) w
  Answered-replying_or_next m f w = elim (Settled-cases (m w)) [
    | inl (a, v, e) ↦ (sent_text (f a), v, rw e refl)
    | inr (x, v, e) ↦ (next_failure x, record v { log = v.log ++ failure x ∷ [] }, rw e refl)
  ]

module _ {s : Services} where
  -- What a `catch` stands behind is answered in every state.
  pub Answered-IsCaughtLaw : (w : World s) → IsCaughtLaw s (λ m. Answered m w)
  Answered-IsCaughtLaw w = record {
    replies = λ r. (r, w, refl);
    closes = λ p f. Answered-replying_or_next (handle_closed s p) f w;
    opens = λ p id f. Answered-replying_or_next (handle_opened s p id) f w;
    syncs = λ p id f. Answered-replying_or_next (handle_sync s p id) f w;
    installs =
        λ owner id f. Answered-replying_or_next (Installation.set_installation_id s owner id) f w;
    uninstalls = λ id owner f. Answered-replying_or_next (uninstall s id owner) f w;
    changes_repositories = λ id f. Answered-replying_or_next (delete_installation_infos s id) f w;
  }

module _ (s : Services) (w : World s) (on : w.online ≡ true) where
  adds-IsFulfilled :
      (owner repo branch : String) (x : Item) → IsFulfilled (Queue.add_item s owner repo branch x) w
  adds-IsFulfilled owner repo branch x =
      elim (Bool-cases
        (any (has_number x.pull_request_number) (booked s w (Queue.queue_id owner repo branch)))) [
          | inl present ↦ (tt, _, add_item_present s owner repo branch x w on present)
          | inr new ↦ let (t, e, _) = add_item_new s owner repo branch x w on new in (tt, _, e)
        ]

  removes-IsFulfilled :
      (owner repo branch : String) (x : Item)
      → IsFulfilled (Queue.remove_item s owner repo branch x Queue.no_meta) w
  removes-IsFulfilled owner repo branch x =
      let (t, e, _) = remove_item_lem s owner repo branch x w Queue.no_meta on in (tt, _, e)

  status-IsFulfilled :
      (owner repo sha : String) → IsFulfilled (handle_status_change s owner repo sha) w
  status-IsFulfilled owner repo sha =
      let (w', e) = handle_status_change_total s owner repo sha w on in (tt, w', e)

  infos-IsFulfilled :
      (owner : String)
      → IsFulfilled (Installation.get_installation_id s owner >>= delete_installation_infos s) w
  infos-IsFulfilled owner =
      let found = get_installation_id_lem s owner w on in
      let id =
        Installation.first_installation_id
          (s.installation_collection.find (owned_by owner) whole w.installations) in
      let (t, e, _) = delete_installation_infos_lem s id w on in
      (
        tt,
        record w {
          installation_infos = t;
          published = w.published ++ installation_info_delete id ∷ [];
        },
        rw found e,
      )

  pub Answered-IsRouteLaw : IsRouteLaw s (λ m. Answered m w)
  Answered-IsRouteLaw = record {
    caught = Answered-IsCaughtLaw w;
    changes_status = λ owner repo sha f.
        Answered-replying (handle_status_change s owner repo sha) f w
          (status-IsFulfilled owner repo sha);
    removes = λ owner repo branch x f.
        Answered-replying (Queue.remove_item s owner repo branch x Queue.no_meta) f w
          (removes-IsFulfilled owner repo branch x);
    adds = λ owner repo branch x f.
        Answered-replying (Queue.add_item s owner repo branch x) f w
          (adds-IsFulfilled owner repo branch x);
    forgets_infos = λ owner f.
        Answered-replying (Installation.get_installation_id s owner >>= delete_installation_infos s)
          f w (infos-IsFulfilled owner);
  }
