-- ===== src/NotificationHandler/Laws.antt =====
-- handler-notification-push.js: what is asked of OneSignal, and what is stored as pending.
use mathlib.Core.List.{append-nil}
use ugo.Base.{
  ◌≡◌, refl, sym, ap, ◌∙◌, inl, inr, ◌⊎◌, String, Bool, true, false, ◌&&◌, List, [], ◌∷◌, ◌++◌,
  Option, none, some, if◌then◌else◌, str_eq, str_eq_iff, str_eq_refl, length, arith, Option-cases,
}
use ugo.Model.PullRequest.{or_old}
use ugo.Model.Notification.{
  NotificationDocument, PushNotification, PushRequest, send_push, cancel_push, PushAnswer, broken,
  with_errors, accepted,
}
use ugo.Model.Message.{Checks, sent_ok, sent_ko, cancel_ok, cancel_ko}
use ugo.Promise.{world_of}
use ugo.World.{Services, World, fulfilled}
use ugo.NotificationManager.Effects.{
  pending, id_of_document, save_notification_lem, get_notification_lem, delete_notification_lem,
}
use ugo.NotificationHandler.{
  checks_id, checks_data, send_time, push_of, send_notification, cancel_notification,
  cancel_checks_notification, send_checks_notification,
}

abbrev pub is_accepted : PushAnswer → Bool
is_accepted broken = false
is_accepted with_errors = false
is_accepted (accepted id) = true

-- The id in an answer.
abbrev pub id_in : PushAnswer → Option String
id_in broken = none
id_in with_errors = none
id_in (accepted id) = id

-- What a cancellation asks of OneSignal, by the document that is pending.
abbrev pub asked : Option NotificationDocument → List PushRequest
asked none = []
asked (some d) = cancel_push d.id ∷ []

abbrev pub is_cancelled : (s : Services) → World s → Option NotificationDocument → Bool
is_cancelled s w none = false
is_cancelled s w (some d) = is_accepted (s.push w.pushes (cancel_push d.id))

PushAnswer-cases :
    (a : PushAnswer) → (is_accepted a ≡ false) ⊎ ((id : Option String) × (a ≡ accepted id))
PushAnswer-cases broken = inl refl
PushAnswer-cases with_errors = inl refl
PushAnswer-cases (accepted id) = inr (id, refl)

module _ (s : Services) (w : World s) (on : w.online ≡ true) where
  -- Where the database answers, cancelNotification is fulfilled, whatever OneSignal answers, and
  -- the database still answers: the pending notification, if there is one, is asked to be cancelled
  -- by its id; if OneSignal accepts this it is deleted and `cancel.ok` is published, in every other
  -- case it stays and `cancel.ko` is published; no other pending notification changes.
  pub cancel_notification_lem :
      (k : String)
      → (w' : World s) × (cancel_notification s k w ≡ fulfilled tt w')
        × (w'.online ≡ true)
        × (w'.pushes ≡ w.pushes ++ asked (pending s w k))
        × (w'.published
            ≡ w.published
              ++ (if is_cancelled s w (pending s w k) then cancel_ok else cancel_ko) ∷ [])
        × ((j : String)
            → pending s w' j
              ≡ (if is_cancelled s w (pending s w k) && str_eq k j then none else pending s w j))
  unfolding cancel_notification
  cancel_notification_lem k = elim (Option-cases (pending s w k)) [
    | inl absent ↦ (
      record w { published = w.published ++ cancel_ko ∷ [] },
      rw (get_notification_lem s w k on, absent) refl,
      on,
      rw absent (sym (append-nil _)),
      ground arith,
      λ j. ground arith,
    )
    | inr (d, found) ↦ elim (PushAnswer-cases (s.push w.pushes (cancel_push d.id))) [
      | inl refused ↦ (
        record w {
          pushes = w.pushes ++ cancel_push d.id ∷ [];
          published = w.published ++ cancel_ko ∷ [];
        },
        ground (arith, get_notification_lem s w k on),
        on,
        ground arith,
        ground arith,
        λ j. ground arith,
      )
      | inr (id, ok) ↦
          let (w', e, on', same_pushes, same_published, after) =
            delete_notification_lem s
              (record w {
                pushes = w.pushes ++ cancel_push d.id ∷ [];
                published = w.published ++ cancel_ok ∷ [];
              })
              k on in
          (
            w',
            rw (get_notification_lem s w k on, found, ok, e) refl,
            on',
            ground arith,
            ground arith,
            λ j. ground (arith, after j),
          )
    ]
  ]

  pub send_notification_lem :
      (n : PushNotification)
      → (w' : World s) × (send_notification s n w
          ≡ fulfilled (id_in (s.push w.pushes (send_push n))) w')
        × (w'.online ≡ true)
        × (w'.pushes ≡ w.pushes ++ send_push n ∷ [])
        × (w'.published
            ≡ w.published
              ++ (if is_accepted (s.push w.pushes (send_push n)) then sent_ok else sent_ko) ∷ [])
        × (w'.notifications ≡ w.notifications)
  unfolding send_notification
  send_notification_lem n = elim (PushAnswer-cases (s.push w.pushes (send_push n))) [
    | inl refused ↦ (
      record w { pushes = w.pushes ++ send_push n ∷ []; published = w.published ++ sent_ko ∷ [] },
      ground arith,
      on,
      refl,
      ground arith,
      refl,
    )
    | inr (id, ok) ↦ (
      record w { pushes = w.pushes ++ send_push n ∷ []; published = w.published ++ sent_ok ∷ [] },
      rw ok refl,
      on,
      refl,
      rw ok refl,
      refl,
    )
  ]

-- The id that a cancellation leaves in the document.
abbrev pub left_id : (s : Services) → World s → Option NotificationDocument → Option String
left_id s w o = if is_cancelled s w o then none else id_of_document o

left_id-eq :
    (s : Services) (w : World s) (o : Option NotificationDocument) (k : String)
    → id_of_document (if is_cancelled s w o && str_eq k k then none else o) ≡ left_id s w o
left_id-eq s w o k = ground (arith, str_eq_refl k)

module _ (s : Services) (w : World s) (on : w.online ≡ true) where
  -- Where the database answers, sendChecksNotification is fulfilled, whatever OneSignal answers,
  -- and the database still answers: the notification that is pending for the booking is asked to be
  -- cancelled, if there is one, then the new one is asked to be sent, and its data is stored as
  -- pending, with the id that OneSignal gives, or if it gives none with the id that a failed
  -- cancellation left; no other pending notification changes.
  pub send_checks_notification_lem :
      (c : Checks)
      → let k = checks_id c.owner c.repo c.pull_request_number c.username in
        let sent = checks_data s c (send_time s (length w.pushes)) in
        let before = w.pushes ++ asked (pending s w k) in
        (w' : World s) × (send_checks_notification s c w ≡ fulfilled tt w')
        × (w'.online ≡ true)
        × (w'.pushes ≡ before ++ send_push (push_of s sent) ∷ [])
        × (pending s w' k
            ≡ some (record {
              id =
                  or_old
                    (id_in (s.push before (send_push (push_of s sent))))
                    (left_id s w (pending s w k));
              content = some sent;
            }))
        × ((j : String) → pending s w' j ≡ (if str_eq k j then pending s w' k else pending s w j))
  unfolding send_checks_notification cancel_checks_notification
  send_checks_notification_lem c =
      let k = checks_id c.owner c.repo c.pull_request_number c.username in
      let sent = checks_data s c (send_time s (length w.pushes)) in
      let (w1, e1, on1, pushes1, published1, after1) = cancel_notification_lem s w on k in
      let (w2, e2, on2, pushes2, published2, same2) =
        send_notification_lem s w1 on1 (push_of s sent) in
      let (w3, e3, on3, pushes3, published3, after3) =
        save_notification_lem s w2 (id_in (s.push w1.pushes (send_push (push_of s sent)))) sent
          on2 in
      let held : (j : String)
          → pending s w2 j
            ≡ (if is_cancelled s w (pending s w k) && str_eq k j then none else pending s w j) =
        λ j. ap (λ q. s.notification_collection.stored q j) same2 ∙ after1 j in
      let old = ap id_of_document (held k) ∙ left_id-eq s w (pending s w k) k in
      (
        w3,
        rw (e1, e2, e3) refl,
        on3,
        pushes3 ∙ pushes2 ∙ ap (λ ps. ps ++ send_push (push_of s sent) ∷ []) pushes1,
        rw (after3 k, str_eq_refl k, old, pushes1) refl,
        λ j. ground (arith, after3 j, after3 k, held j, str_eq_refl k, str_eq_iff k j),
      )

-- Where the database answers, the id that is asked to be cancelled right after a notification about
-- checks was asked to be sent is the id that OneSignal gave; if it gave none, it is the one that
-- the failed cancellation before left, and no id if there was none.
pub cancel_checks_notification-send_checks_notification :
    (s : Services) (w : World s) (c : Checks)
    → w.online ≡ true
    → let k = checks_id c.owner c.repo c.pull_request_number c.username in
      let sent = push_of s (checks_data s c (send_time s (length w.pushes))) in
      let before = w.pushes ++ asked (pending s w k) in
      let w1 = world_of (send_checks_notification s c w) in
      (world_of
        (cancel_checks_notification s c.owner c.repo c.pull_request_number c.username w1)).pushes
      ≡ (before ++ send_push sent ∷ [])
        ++ cancel_push
            (or_old (id_in (s.push before (send_push sent))) (left_id s w (pending s w k)))
          ∷ []
unfolding cancel_checks_notification
cancel_checks_notification-send_checks_notification s w c on =
    let k = checks_id c.owner c.repo c.pull_request_number c.username in
    let (w', e, on', pushes', here, others) = send_checks_notification_lem s w on c in
    let (w2, e2, on2, pushes2, published2, after2) = cancel_notification_lem s w' on' k in
    rw (e, e2) (pushes2 ∙ rw (here, pushes') refl)
