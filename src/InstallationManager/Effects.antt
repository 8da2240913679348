-- ===== src/InstallationManager/Effects.antt =====
-- manager-installation.js: which id is found for an owner.
use ugo.Base.{
  reject-cong, subst, ℕ, ◌≡◌, refl, sym, ap, ◌∙◌, inl, inr, String, true, false, List, [], ◌∷◌,
  Option, none, some, str_eq, str_eq_refl, arith, Option-cases, decimal, reject, if◌then◌else◌,
  Bool-cases,
}
use mathlib.Core.List.{Memᴰ}
use ugo.Model.Installation.{InstallationDocument, owned_by, set_installation, whole}
use ugo.Model.PullRequest.{is_some_text}
use ugo.World.{Services, World, fulfilled}
use ugo.Promise.{world_of}
use ugo.InstallationManager.{
  first_installation_id, get_installation_id, set_installation_id, delete_installation_id,
}

abbrev pub installation_at :
    (s : Services) → s.InstallationTable → String → Option InstallationDocument
installation_at s t k = s.installation_collection.stored t k

module _ (s : Services) where
  open s use {installation_collection, installation_driver, installation_queries}

  abbrev installations_of : String → s.InstallationTable → List InstallationDocument
  installations_of owner t = installation_collection.find (owned_by owner) whole t

  pub get_installation_id_lem :
      (owner : String) (w : World s)
      → w.online ≡ true
      → get_installation_id s owner w
        ≡ fulfilled (first_installation_id (installations_of owner w.installations)) w
  unfolding get_installation_id
  get_installation_id_lem owner w on = ground (arith, on)

  -- A document that is found is stored, and of the owner.
  installation-found :
      (owner : String) (t : s.InstallationTable) (d : InstallationDocument)
      → Memᴰ d (installations_of owner t)
      → (k : String) × (installation_at s t k ≡ some d) × (is_some_text d.owner owner ≡ true)
  installation-found owner t d m =
      let (k, e, found, fits, same) = installation_driver.find-sound (owned_by owner) whole t d m in
      let same' = sym (installation_queries.project-whole e) ∙ sym same in
      (
        k,
        found ∙ ap some same',
        ap (λ x. is_some_text x.owner owner) (sym same')
            ∙ sym (installation_queries.satisfies-owned_by owner e)
            ∙ fits,
      )

  installation-first :
      (ds : List InstallationDocument) (id : ℕ)
      → first_installation_id ds ≡ some id
      → (d : InstallationDocument) × Memᴰ d ds × (d.installation_id ≡ some id)
  installation-first [] id h = cc
  installation-first (d ∷ ds) id h = (d, Memᴰ.head refl, h)

  none-if_no :
      (ds : List InstallationDocument) → ((d : InstallationDocument) → ¬ Memᴰ d ds) → ds ≡ []
  none-if_no [] h = refl
  none-if_no (d ∷ ds) h = absurd (h d (Memᴰ.head refl))

  no_mem : {e : InstallationDocument} → ¬ Memᴰ e []
  no_mem m = elim m [ ]

  all_first :
      (ds : List InstallationDocument) (e : InstallationDocument) (id : ℕ)
      → Memᴰ e ds
      → ((d : InstallationDocument) → Memᴰ d ds → d.installation_id ≡ some id)
      → first_installation_id ds ≡ some id
  all_first [] e id m h = absurd (no_mem m)
  all_first (d ∷ ds) e id m h = h d (Memᴰ.head refl)

  installation-upsert :
      (id : ℕ) (owner : String) (t : s.InstallationTable) (j : String)
      → installation_at s
          (installation_collection.upsert_one (decimal id) (set_installation id owner) t)
          j
        ≡ (if str_eq (decimal id) j
            then some (record { installation_id = some id; owner = some owner })
            else installation_at s t j)
  installation-upsert id owner t j =
      rw
        (
          installation_driver.upsert_one-eq, installation_driver.stored-write,
          installation_queries.apply-set_installation,
        )
        refl

  installation-delete :
      (owner : String) (t : s.InstallationTable) (j : String) (d : InstallationDocument)
      → installation_at s (installation_collection.delete_many (owned_by owner) t) j ≡ some d
      → (installation_at s t j ≡ some d) × (is_some_text d.owner owner ≡ false)
  installation-delete owner t j d left = elim (Option-cases (installation_at s t j)) [
    | inl absent ↦
        absurd (ground (arith, installation_driver.stored-delete_many (owned_by owner) t j))
    | inr (e, found) ↦ elim (Bool-cases (installation_collection.satisfies (owned_by owner) e)) [
      | inl fits ↦
          absurd (ground (arith, installation_driver.stored-delete_many (owned_by owner) t j))
      | inr unfit ↦
          let same : some e ≡ some d =
            sym (rw (installation_driver.stored-delete_many, found, unfit) refl) ∙ left in
          (found ∙ same, ground (arith, installation_queries.satisfies-owned_by owner e))
    ]
  ]

  pub installation-reject :
      (owner : String) (t : s.InstallationTable) (j : String)
      → installation_at s (installation_collection.delete_many (owned_by owner) t) j
        ≡ reject (λ d. is_some_text d.owner owner) (installation_at s t j)
  installation-reject owner t j =
      installation_driver.stored-delete_many (owned_by owner) t j
      ∙ reject-cong _ _ (installation_at s t j) (installation_queries.satisfies-owned_by owner)

  -- Where the database answers, an id that getInstallationId finds is that of a stored document of
  -- the owner.
  pub get_installation_id_sound :
      (owner : String) (w : World s) (id : ℕ) (w' : World s)
      → w.online ≡ true
      → get_installation_id s owner w ≡ fulfilled (some id) w'
      → (k : String) × (d : InstallationDocument) × (installation_at s w.installations k ≡ some d)
        × (is_some_text d.owner owner ≡ true)
        × (d.installation_id ≡ some id)
  get_installation_id_sound owner w id w' on got =
      let first : first_installation_id (installations_of owner w.installations) ≡ some id =
        ground (arith, get_installation_id_lem owner w on) in
      let (d, m, has) = installation-first (installations_of owner w.installations) id first in
      let (k, found, own) = installation-found owner w.installations d m in (k, d, found, own, has)

  get_after_set :
      (owner : String) (id : ℕ) (t : s.InstallationTable)
      → ((k : String) (d : InstallationDocument)
          → installation_at s t k ≡ some d
          → is_some_text d.owner owner ≡ true
          → k ≡ decimal id)
      → first_installation_id (
          installations_of owner
            (installation_collection.upsert_one (decimal id) (set_installation id owner) t))
        ≡ some id
  get_after_set owner id t alone = all_first (installations_of owner after) new id member each
    where
      new : InstallationDocument
      new = record { installation_id = some id; owner = some owner }

      after : s.InstallationTable
      after = installation_collection.upsert_one (decimal id) (set_installation id owner) t

      here : installation_at s after (decimal id) ≡ some new
      here = installation-upsert id owner t (decimal id) ∙ rw (str_eq_refl (decimal id)) refl

      member : Memᴰ new (installations_of owner after)
      member =
          subst (λ d. Memᴰ d (installations_of owner after))
            (installation_queries.project-whole new)
            (installation_driver.find-complete (owned_by owner) whole after (decimal id) new here
              (installation_queries.satisfies-owned_by owner new ∙ str_eq_refl owner))

      each :
          (d : InstallationDocument)
          → Memᴰ d (installations_of owner after)
          → d.installation_id ≡ some id
      each d m =
          let (k, found, own) = installation-found owner after d m in
          elim (Bool-cases (str_eq (decimal id) k)) [
            | inl same ↦
                let e : some new ≡ some d =
                  sym (installation-upsert id owner t k ∙ rw same refl) ∙ found in
                ground (arith, e)
            | inr other ↦
                let old : installation_at s t k ≡ some d =
                  sym (installation-upsert id owner t k ∙ rw other refl) ∙ found in
                absurd (ground (arith, alone k d old own, str_eq_refl k))
          ]

  -- Where the database answers and no other document than that of an id is of an owner: after
  -- setInstallationId for the owner and the id, getInstallationId finds the id.
  pub get_installation_id-set_installation_id :
      (owner : String) (id : ℕ) (w : World s)
      → w.online ≡ true
      → ((k : String) (d : InstallationDocument)
          → installation_at s w.installations k ≡ some d
          → is_some_text d.owner owner ≡ true
          → k ≡ decimal id)
      → let w1 = world_of (set_installation_id s owner id w) in
        get_installation_id s owner w1 ≡ fulfilled (some id) w1
  unfolding set_installation_id get_installation_id
  get_installation_id-set_installation_id owner id w on alone =
      ground (arith, on, get_after_set owner id w.installations alone)

  gone_after_delete :
      (owner : String) (t : s.InstallationTable)
      → installations_of owner (installation_collection.delete_many (owned_by owner) t) ≡ []
  gone_after_delete owner t = none-if_no _ (λ d m.
      let (k, found, own) = installation-found owner _ d m in
      let (_, other) = installation-delete owner t k d found in ground (arith, own, other))

  -- Where the database answers, deleteInstallationId leaves no document of the owner and every
  -- document of another, and getInstallationId finds no id of the owner after it.
  pub get_installation_id-delete_installation_id :
      (owner : String) (w : World s)
      → w.online ≡ true
      → let w1 = world_of (delete_installation_id s owner w) in
        (get_installation_id s owner w1 ≡ fulfilled none w1)
        × ((k : String)
            → installation_at s w1.installations k
              ≡ reject (λ d. is_some_text d.owner owner) (installation_at s w.installations k))
  unfolding delete_installation_id get_installation_id
  get_installation_id-delete_installation_id owner w on = (
    ground (arith, on, gone_after_delete owner w.installations),
    λ k. rw on (installation-reject owner w.installations k),
  )
