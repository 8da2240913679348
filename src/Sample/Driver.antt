-- ===== src/Sample/Driver.antt =====
-- A collection in memory that does what the documentation of the mongodb driver says.
use ugo.Base.{
  ◌≡◌, refl, sym, ◌∙◌, inl, inr, ◌⊎◌, ap, String, Bool, true, false, not, ◌&&◌, List, [], ◌∷◌,
  Option, none, some, if◌then◌else◌, str_eq, str_eq_iff, str_eq_refl, any, reject, arith,
  Bool-cases, Option-cases,
}
use mathlib.Core.Option
use mathlib.Core.List.{Memᴰ}
use ugo.Mongo.{Collection, IsDriver, Options, Answer, answered, failed, duplicate_key}

-- What was written last comes first; `none` is a deletion.
abbrev pub Table : Type 0 → Type 0
Table D = List (String × Option D)

unfoldable pub lookup : {D : Type 0} → Table D → String → Option D
lookup [] j = none
lookup ((k, d) ∷ t) j = if str_eq k j then d else lookup t j

cons_mem : {A : Type 0} {a x : A} {xs : List A} → Memᴰ a (x ∷ xs) → (a ≡ x) ⊎ Memᴰ a xs
cons_mem (Memᴰ.head e) = inl e
cons_mem (Memᴰ.tail m) = inr m

module _ {D C U P V : Type 0} (satisfies : C → D → Bool) (apply : U → D → D) (blank : D)
    (project : P → D → V) where
  -- The answer of an update, by what the collection holds.
  abbrev pub update_at : String → C → U → Options → Table D → Option D → Table D × Answer (Option D)
  update_at k f u o t none =
      if o.upsert
      then (
        (k, some (apply u blank)) ∷ t,
        answered (if o.return_original then none else some (apply u blank)),
      )
      else (t, answered none)
  update_at k f u o t (some d) =
      if satisfies f d
      then ((k, some (apply u d)) ∷ t, answered (some (if o.return_original then d else apply u d)))
      else (t, (if o.upsert then failed duplicate_key else answered none))

  abbrev pub matches : C → Option D → Bool
  matches f none = false
  matches f (some d) = satisfies f d

  -- The first key of the second table whose document in the first matches.
  unfoldable pub first_match : C → P → Table D → Table D → Option V
  first_match f p whole [] = none
  first_match f p whole ((k, d) ∷ t) =
      if matches f (lookup whole k)
      then Option.map (project p) (lookup whole k)
      else first_match f p whole t

  abbrev pub is_seen : String → List String → Bool
  is_seen k seen = any (λ j. str_eq j k) seen

  -- A view of every document that matches, but for those that a key seen before hides.
  unfoldable pub all_matches : {W : Type 0} → (D → W) → C → List String → Table D → List W
  all_matches view f seen [] = []
  all_matches view f seen ((k, none) ∷ t) = all_matches view f (k ∷ seen) t
  all_matches view f seen ((k, some d) ∷ t) =
      let rest = all_matches view f (k ∷ seen) t in
      if satisfies f d && not (is_seen k seen) then view d ∷ rest else rest

  unfoldable pub delete_matches : C → Table D → Table D
  delete_matches f [] = []
  delete_matches f ((k, d) ∷ t) = (k, reject (satisfies f) d) ∷ delete_matches f t

  abbrev pub collection : Collection (Table D) D C U P V
  collection = record {
    stored = lookup;
    write = λ k d t. (k, some d) ∷ t;
    satisfies = satisfies;
    apply = apply;
    blank = blank;
    project = project;
    find_one_and_update = λ k f u o t. update_at k f u o t (lookup t k);
    upsert_one = λ k u t. (k, some (apply u (Option.get_or (lookup t k) blank))) ∷ t;
    find_by_id = λ k p t. Option.map (project p) (lookup t k);
    find_one = λ f p t. first_match f p t t;
    find = λ f p t. all_matches (project p) f [] t;
    find_documents = λ f t. all_matches (λ d. d) f [] t;
    delete_one = λ k t. (k, none) ∷ t;
    delete_many = delete_matches;
  }

  lookup-delete_matches :
      (f : C) (t : Table D) (j : String)
      → lookup (delete_matches f t) j ≡ reject (satisfies f) (lookup t j)
  unfolding lookup delete_matches
  lookup-delete_matches f [] j = refl
  lookup-delete_matches f ((k, d) ∷ t) j = ground (arith, lookup-delete_matches f t j)

  first_match_sound :
      (f : C) (p : P) (whole t : Table D) (v : V)
      → first_match f p whole t ≡ some v
      → (k : String) × (d : D) × (lookup whole k ≡ some d)
        × (satisfies f d ≡ true)
        × (v ≡ project p d)
  unfolding first_match
  first_match_sound f p whole [] v e = ground arith
  first_match_sound f p whole ((k, d) ∷ t) v e = elim (Option-cases (lookup whole k)) [
    | inl gone ↦ first_match_sound f p whole t v (ground arith)
    | inr (x, there) ↦ elim (Bool-cases (satisfies f x)) [
      | inl fits ↦ (k, x, there, fits, ground arith)
      | inr other ↦ first_match_sound f p whole t v (ground arith)
    ]
  ]

  first_match_complete :
      (f : C) (p : P) (whole t : Table D) (k : String) (d x : D)
      → first_match f p whole t ≡ none
      → lookup t k ≡ some x
      → lookup whole k ≡ some d
      → satisfies f d ≡ false
  unfolding first_match lookup
  first_match_complete f p whole [] k d x e there stored = ground arith
  first_match_complete f p whole ((j, y) ∷ t) k d x e there stored =
      ground (arith, str_eq_iff j k, first_match_complete f p whole t k d x)

  all_matches_sound :
      {W : Type 0} (view : D → W) (f : C) (seen : List String) (t : Table D) (v : W)
      → Memᴰ v (all_matches view f seen t)
      → (k : String) × (d : D) × (lookup t k ≡ some d)
        × (is_seen k seen ≡ false)
        × (satisfies f d ≡ true)
        × (v ≡ view d)
  unfolding all_matches lookup
  all_matches_sound view f seen [] v h = elim h [ ]
  all_matches_sound view f seen ((k, none) ∷ t) v h =
      let (j, d, there, fresh, fits, same) = all_matches_sound view f (k ∷ seen) t v h in
      (j, d, ground (arith, there, fresh), ground (arith, fresh), fits, same)
  all_matches_sound view f seen ((k, some e) ∷ t) v h =
      elim (Bool-cases (satisfies f e && not (is_seen k seen))) [
        | inl here ↦ elim (cons_mem (rw here at h)) [
          | inl same ↦ (k, e, ground (arith, str_eq_refl k), ground arith, ground arith, same)
          | inr later ↦ below (all_matches_sound view f (k ∷ seen) t v later)
        ]
        | inr other ↦ below (all_matches_sound view f (k ∷ seen) t v (rw other at h))
      ]
    where
      below :
          (j : String) × (d : D) × (lookup t j ≡ some d)
            × (is_seen j (k ∷ seen) ≡ false)
            × (satisfies f d ≡ true)
            × (v ≡ view d)
          → (j : String) × (d : D) × (lookup ((k, some e) ∷ t) j ≡ some d)
            × (is_seen j seen ≡ false)
            × (satisfies f d ≡ true)
            × (v ≡ view d)
      below (j, d, there, fresh, fits, same) =
          (j, d, ground (arith, there, fresh), ground (arith, fresh), fits, same)

  all_matches_complete :
      {W : Type 0} (view : D → W) (f : C) (seen : List String) (t : Table D) (k : String) (d : D)
      → lookup t k ≡ some d
      → is_seen k seen ≡ false
      → satisfies f d ≡ true
      → Memᴰ (view d) (all_matches view f seen t)
  unfolding all_matches lookup
  all_matches_complete view f seen [] k d there fresh fits = cc
  all_matches_complete view f seen ((j, none) ∷ t) k d there fresh fits =
      all_matches_complete view f (j ∷ seen) t k d (ground arith) (ground (arith, str_eq_iff j k))
        fits
  all_matches_complete view f seen ((j, some e) ∷ t) k d there fresh fits =
      elim (Bool-cases (str_eq j k)) [
        | inl same ↦
            let shown : satisfies f e && not (is_seen j seen) ≡ true =
              ground (arith, str_eq_iff j k) in
            rw shown (Memᴰ.head (ap view (ground arith)))
        | inr differ ↦
            let later =
              all_matches_complete view f (j ∷ seen) t k d (ground arith)
                (ground (arith, str_eq_iff j k)) fits in
            elim (Bool-cases (satisfies f e && not (is_seen j seen))) [
              | inl shown ↦ rw shown (Memᴰ.tail later)
              | inr hidden ↦ rw hidden later
            ]
      ]

  find_sound :
      {W : Type 0} (view : D → W) (f : C) (t : Table D) (v : W)
      → Memᴰ v (all_matches view f [] t)
      → (k : String) × (d : D) × (lookup t k ≡ some d) × (satisfies f d ≡ true) × (v ≡ view d)
  find_sound view f t v h =
      let (k, d, there, fresh, fits, same) = all_matches_sound view f [] t v h in
      (k, d, there, fits, same)

  pub collection-IsDriver : IsDriver collection
  unfolding lookup
  collection-IsDriver = record {
    stored-write = λ k d t j. refl;
    update-matched = λ k f u o t d e m. rw (e, m) refl;
    update-absent = λ k f u o t e. rw e refl;
    update-unmatched = λ k f u o t d e m. rw (e, m) refl;
    upsert_one-eq = λ k u t. refl;
    find_by_id-eq = λ k p t. refl;
    find_one-some = λ f p t v. first_match_sound f p t t v;
    find_one-none = λ f p t k d e there. first_match_complete f p t t k d d e there there;
    find-sound = λ f p. find_sound (project p) f;
    find-complete =
        λ f p t k d there fits. all_matches_complete (project p) f [] t k d there refl fits;
    find_documents-sound = λ f t d m.
        let (k, e, there, fits, same) = find_sound (λ d. d) f t d m in
        (k, there ∙ ap some (sym same), ap (satisfies f) same ∙ fits);
    find_documents-complete =
        λ f t k d there fits. all_matches_complete (λ d. d) f [] t k d there refl fits;
    stored-delete_one = λ k t j. refl;
    stored-delete_many = lookup-delete_matches;
  }
