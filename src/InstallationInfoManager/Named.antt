-- ===== src/InstallationInfoManager/Named.antt =====
-- The installation of a stored installation info is the one in its `_id`.
use ugo.Base.{
  [], ℕ, ◌≡◌, refl, sym, subst, ◌⊎◌, inl, inr, String, Bool, true, false, Option, none, some,
  if◌then◌else◌, str_eq, str_eq_iff, arith, Bool-cases, reject,
}
use ugo.Model.Installation.{
  InstallationInfo, InstallationInfoDocument, of_installation, set_installation_info, same_number,
  whole,
}
use ugo.World.{Services, World, Promise}
use ugo.Promise.{◌>>=◌, world_of}
use ugo.Keeps.{Keeps, Keeps-then}
use ugo.GitHub.Accounts.{get_installation_pages}
use ugo.InstallationInfoManager.{
  installation_info_id, set_installation_info_of, picked, evolved, info_or_github,
  get_installation_info_from_github, get_installation_info, delete_installation_infos,
}
use ugo.InstallationInfoManager.Effects.{installation_info_at, infos-reject}

-- What lies under an `_id`, if anything, is of the installation that the `_id` names.
abbrev pub IsNamed : String → Option InstallationInfoDocument → Type 0
IsNamed k none = Unit
IsNamed k (some d) =
    (id : ℕ) × (token : String) × (k ≡ installation_info_id id token)
    × (d.installation_id ≡ some id)

abbrev pub AllNamed : (s : Services) → World s → Type 0
AllNamed s w = (k : String) → IsNamed k (installation_info_at s w.installation_infos k)

module _ {s : Services} where
  abbrev pub Names : World s → World s → Type 0
  Names w w' = AllNamed s w → AllNamed s w'

  pub Names-same : (w w' : World s) → w'.installation_infos ≡ w.installation_infos → Names w w'
  Names-same w w' same h k = subst (λ t. IsNamed k (installation_info_at s t k)) (sym same) (h k)

  abbrev pub KeepsNames : {A : Type 0} → Promise s A → Type 0
  KeepsNames m = Keeps Names m

  pub KeepsNames-then :
      {A B : Type 0} (m : Promise s A) (f : A → Promise s B)
      → KeepsNames m
      → ((a : A) → KeepsNames (f a))
      → KeepsNames (m >>= f)
  KeepsNames-then = Keeps-then Names (λ u v w h k d. k (h d))

  pub KeepsNames-same :
      {A : Type 0} (m : Promise s A)
      → ((w : World s) → (world_of (m w)).installation_infos ≡ w.installation_infos)
      → KeepsNames m
  KeepsNames-same m h w = Names-same w (world_of (m w)) (h w)

module _ (s : Services) where
  open s use {installation_info_collection, installation_info_driver, installation_info_queries}

  -- The collection after a write, with and without a database.
  infos-set :
      (id : ℕ) (i : InstallationInfo) (token : String) (w : World s)
      → (world_of (set_installation_info_of s id i token w)).installation_infos ≡ (
          if w.online
          then installation_info_collection.upsert_one
              (installation_info_id id token)
              (set_installation_info id i)
              w.installation_infos
          else w.installation_infos)
  unfolding set_installation_info_of
  infos-set id i token w = ground arith

  upsert-IsNamed :
      (id : ℕ) (i : InstallationInfo) (token : String) (t : s.InstallationInfoTable) (k : String)
      → IsNamed k (installation_info_at s t k)
      → IsNamed k (
          installation_info_at s
            (installation_info_collection.upsert_one
              (installation_info_id id token)
              (set_installation_info id i)
              t)
            k)
  upsert-IsNamed id i token t k h =
      rw
        (
          installation_info_driver.upsert_one-eq, installation_info_driver.stored-write,
          installation_info_queries.apply-set_installation_info,
        )
        (here (Bool-cases (str_eq (installation_info_id id token) k)))
    where
      here :
          (str_eq (installation_info_id id token) k ≡ true)
            ⊎ (str_eq (installation_info_id id token) k ≡ false)
          → IsNamed k (
              if str_eq (installation_info_id id token) k
              then some (record { installation_id = some id; info = i })
              else installation_info_at s t k)
      here (inl e) =
          rw e (id, token, sym ((str_eq_iff (installation_info_id id token) k).0 e), refl)
      here (inr e) = rw e h

  IsNamed-either :
      (b : Bool) (t t' : s.InstallationInfoTable) (k : String)
      → IsNamed k (installation_info_at s t k)
      → IsNamed k (installation_info_at s t' k)
      → IsNamed k (installation_info_at s (if b then t else t') k)
  IsNamed-either true t t' k h h' = h
  IsNamed-either false t t' k h h' = h'

  KeepsNames-set :
      (id : ℕ) (i : InstallationInfo) (token : String)
      → KeepsNames (set_installation_info_of s id i token)
  KeepsNames-set id i token w h k = rw (infos-set id i token w) (
      IsNamed-either w.online
        (installation_info_collection.upsert_one (installation_info_id id token)
          (set_installation_info id i) w.installation_infos)
        w.installation_infos k (upsert-IsNamed id i token w.installation_infos k (h k)) (h k))

  infos-delete :
      (id : Option ℕ) (w : World s)
      → (world_of (delete_installation_infos s id w)).installation_infos ≡ (
          if w.online
          then installation_info_collection.delete_many (of_installation id) w.installation_infos
          else w.installation_infos)
  unfolding delete_installation_infos
  infos-delete id w = ground arith

  reject-IsNamed :
      (id : Option ℕ) (k : String) (o : Option InstallationInfoDocument)
      → IsNamed k o
      → IsNamed k (reject (λ d. same_number d.installation_id id) o)
  reject-IsNamed id k none h = h
  reject-IsNamed id k (some d) h = elim (Bool-cases (same_number d.installation_id id)) [
    | inl e ↦ rw e tt
    | inr e ↦ rw e h
  ]

  pub KeepsNames-delete : (id : Option ℕ) → KeepsNames (delete_installation_infos s id)
  KeepsNames-delete id w h k = rw (infos-delete id w) (
      IsNamed-either w.online
        (installation_info_collection.delete_many (of_installation id) w.installation_infos)
        w.installation_infos k
        (rw (infos-reject s id w.installation_infos k) (reject-IsNamed id k _ (h k))) (h k))

  infos-pages :
      (token : String) (id : ℕ) (w : World s)
      → (world_of (get_installation_pages s token id w)).installation_infos ≡ w.installation_infos
  unfolding get_installation_pages
  infos-pages token id w = ground arith

  KeepsNames-github :
      (token : String) (id : ℕ) → KeepsNames (get_installation_info_from_github s token id)
  unfolding get_installation_info_from_github
  KeepsNames-github token id =
      KeepsNames-then (get_installation_pages s token id) _
        (KeepsNames-same (get_installation_pages s token id) (infos-pages token id))
        (λ pages.
          KeepsNames-then (evolved s pages (picked pages.repositories)) _
            (KeepsNames-same (evolved s pages (picked pages.repositories)) (λ w. ground arith))
            (λ i. KeepsNames-set id i token))

  -- The stored info, or else GitHub's.
  KeepsNames-or_github :
      (token : String) (id : ℕ) (o : Option InstallationInfo)
      → KeepsNames (info_or_github s token id o)
  KeepsNames-or_github token id none = KeepsNames-github token id
  KeepsNames-or_github token id (some i) = λ w h. h

  world_of-get :
      (token : String) (id : ℕ) (w : World s)
      → (o : Option InstallationInfo) × (world_of (get_installation_info s token id w)
          ≡ world_of (info_or_github s token id o w))
  unfolding get_installation_info
  world_of-get token id w = elim (Bool-cases w.online) [
    | inl on ↦ (
      installation_info_collection.find_by_id (installation_info_id id token) whole
          w.installation_infos,
      ground (arith, on),
    )
    | inr off ↦ elim (Bool-cases w.refusing) [
      | inl refusing ↦ (
        some (record { total_count = none; repositories = []; client_id = none }),
        ground (arith, off, refusing),
      )
      | inr absent ↦ (none, ground (arith, off, absent))
    ]
  ]

  pub KeepsNames-get : (token : String) (id : ℕ) → KeepsNames (get_installation_info s token id)
  KeepsNames-get token id w h =
      let (o, same) = world_of-get token id w in
      subst (AllNamed s) (sym same) (KeepsNames-or_github token id o w h)
