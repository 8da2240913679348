-- ===== src/NotificationManager/Effects.antt =====
-- What the operations of manager-notification-push.js do to the pending notifications.
use ugo.Base.{
  ◌≡◌, refl, inl, inr, String, true, Option, none, some, if◌then◌else◌, str_eq, arith, Option-cases,
}
use ugo.Model.PullRequest.{or_old}
use ugo.Model.Notification.{NotificationData, NotificationDocument, set_notification, id_only}
use ugo.World.{Services, World, fulfilled}
use ugo.NotificationManager.{id_of_data, save_notification, get_notification, delete_notification}

-- The document that is stored under an `_id`, and the id in it.
abbrev pub pending : (s : Services) → World s → String → Option NotificationDocument
pending s w k = s.notification_collection.stored w.notifications k

abbrev pub ids_of : Option NotificationDocument → Option (Option String)
ids_of none = none
ids_of (some d) = some d.id

abbrev pub id_of_document : Option NotificationDocument → Option String
id_of_document none = none
id_of_document (some d) = d.id

module _ (s : Services) (w : World s) where
  open s use {notification_collection, notification_driver, notification_queries}

  pub save_notification_lem :
      (id : Option String) (d : NotificationData)
      → w.online ≡ true
      → (w' : World s) × (save_notification s id d w ≡ fulfilled tt w')
        × (w'.online ≡ true)
        × (w'.pushes ≡ w.pushes)
        × (w'.published ≡ w.published)
        × ((j : String)
            → pending s w' j ≡ (
                if str_eq (id_of_data d) j
                then some (record {
                  id = or_old id (id_of_document (pending s w (id_of_data d)));
                  content = some d;
                })
                else pending s w j))
  unfolding save_notification
  save_notification_lem id d on = (
    record w {
      notifications =
          notification_collection.upsert_one (id_of_data d) (set_notification id d) w.notifications;
    },
    ground (arith, on),
    on,
    refl,
    refl,
    λ j. elim (Option-cases (pending s w (id_of_data d))) [
      | inl absent ↦ rw notification_driver.upsert_one-eq (
          ground (
            arith,
            notification_driver.stored-write (id_of_data d)
                (notification_collection.apply (set_notification id d)
                  notification_collection.blank)
                w.notifications j,
            notification_queries.apply-set_notification id d notification_collection.blank,
            notification_queries.blank-eq,
          ))
      | inr (e, found) ↦ rw notification_driver.upsert_one-eq (
          ground (
            arith,
            notification_driver.stored-write (id_of_data d)
                (notification_collection.apply (set_notification id d) e) w.notifications j,
            notification_queries.apply-set_notification id d e,
          ))
    ],
  )

  pub get_notification_lem :
      (k : String) → w.online ≡ true → get_notification s k w ≡ fulfilled (ids_of (pending s w k)) w
  unfolding get_notification
  get_notification_lem k on = elim (Option-cases (pending s w k)) [
    | inl absent ↦ ground (arith, on, notification_driver.find_by_id-eq k id_only w.notifications)
    | inr (d, found) ↦ ground (
      arith,
      on,
      notification_driver.find_by_id-eq k id_only w.notifications,
      notification_queries.project-id_only d,
    )
  ]

  pub delete_notification_lem :
      (k : String)
      → w.online ≡ true
      → (w' : World s) × (delete_notification s k w ≡ fulfilled tt w')
        × (w'.online ≡ true)
        × (w'.pushes ≡ w.pushes)
        × (w'.published ≡ w.published)
        × ((j : String) → pending s w' j ≡ (if str_eq k j then none else pending s w j))
  unfolding delete_notification
  delete_notification_lem k on = (
    record w { notifications = notification_collection.delete_one k w.notifications },
    ground (arith, on),
    on,
    refl,
    refl,
    notification_driver.stored-delete_one k w.notifications,
  )
