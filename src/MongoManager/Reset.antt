-- ===== src/MongoManager/Reset.antt =====
-- manager-mongo.js: what `reset` leaves of a database.
use ugo.Base.{
  ◌≡◌, ◌⊎◌, inl, inr, refl, sym, ap, ◌∙◌, String, true, false, List, [], ◌∷◌, any, arith, str_eq,
  str_eq_iff, Bool-cases,
}
use ugo.Mongo.{Answer, answered, failed}
use ugo.MongoManager.{
  Db, pending, open_db, empty_object, fulfils, is_system, both, delete_collection, delete_each,
  delete_listed, outcome, reset,
}

module _ (Database : Type 0) (list_collections : Database → Answer (List String))
    (delete_all : String → Database → Database × Answer (Unit {0}))
    (documents : Database → String → List String) where
  -- The documented behaviour of the driver: every collection with a document is listed, and
  -- `deleteMany({})` changes its own collection, in which nothing is left if it succeeds.
  pub record IsDatabase : Type 0 where
    pub lists :
        (d : Database) (names : List String) (k : String)
        → list_collections d ≡ answered names
        → any (str_eq k) names ≡ false
        → documents d k ≡ []
    pub deletes :
        (d : Database) (k : String)
        → (delete_all k d).1 ≡ answered tt
        → documents (delete_all k d).0 k ≡ []
    pub others :
        (d : Database) (name k : String)
        → str_eq name k ≡ false
        → documents (delete_all name d).0 k ≡ documents d k

module _ {Database : Type 0} {list_collections : Database → Answer (List String)}
    {delete_all : String → Database → Database × Answer (Unit {0})}
    {documents : Database → String → List String}
    (law : IsDatabase Database list_collections delete_all documents) where
  other_name :
      (name k : String) → is_system name ≡ false → is_system k ≡ true → str_eq name k ≡ false
  other_name name k plain h = elim (Bool-cases (str_eq name k)) [
    | inl same ↦ let e = (str_eq_iff name k).0 same in absurd (cc (sym plain ∙ ap is_system e ∙ h))
    | inr other ↦ other
  ]

  delete_collection-system :
      (name k : String) (d : Database)
      → is_system k ≡ true
      → documents (delete_collection Database list_collections delete_all name d).0 k
        ≡ documents d k
  delete_collection-system name k d h = elim (Bool-cases (is_system name)) [
    | inl kept ↦ rw kept refl
    | inr plain ↦ rw plain (law.others d name k (other_name name k plain h))
  ]

  delete_each-system :
      (names : List String) (k : String) (d : Database)
      → is_system k ≡ true
      → documents (delete_each Database list_collections delete_all names d).0 k ≡ documents d k
  unfolding delete_each
  delete_each-system [] k d h = refl
  delete_each-system (name ∷ names) k d h =
      delete_each-system names k (delete_collection Database list_collections delete_all name d).0 h
      ∙ delete_collection-system name k d h

  both-answered :
      (a b : Answer (Unit {0}))
      → both Database list_collections delete_all a b ≡ answered tt
      → (a ≡ answered tt) × (b ≡ answered tt)
  both-answered (answered _) b h = (refl, h)
  both-answered (failed code) b h = cc

  -- After a success for one collection: its documents are gone, or they are where they were.
  delete_collection-plain :
      (name k : String) (d : Database)
      → is_system k ≡ false
      → (delete_collection Database list_collections delete_all name d).1 ≡ answered tt
      → (documents (delete_collection Database list_collections delete_all name d).0 k ≡ [])
        ⊎ ((str_eq name k ≡ false)
            × (documents (delete_collection Database list_collections delete_all name d).0 k
                ≡ documents d k))
  delete_collection-plain name k d h done = elim (Bool-cases (str_eq name k)) [
    | inl same ↦
        let e = (str_eq_iff name k).0 same in
        inl (rw (e, h) (law.deletes d k (ground (arith, e, h, done))))
    | inr other ↦ elim (Bool-cases (is_system name)) [
      | inl kept ↦ inr (other, rw kept refl)
      | inr plain ↦ inr (other, rw plain (law.others d name k other))
    ]
  ]

  delete_each-plain :
      (names : List String) (k : String) (d : Database)
      → is_system k ≡ false
      → (delete_each Database list_collections delete_all names d).1 ≡ answered tt
      → (any (str_eq k) names ≡ true) ⊎ (documents d k ≡ [])
      → documents (delete_each Database list_collections delete_all names d).0 k ≡ []
  unfolding delete_each
  delete_each-plain [] k d h done (inl e) = cc
  delete_each-plain [] k d h done (inr e) = e
  delete_each-plain (name ∷ names) k d h done e =
      let (first, rest) = both-answered _ _ done in
      delete_each-plain names k (delete_collection Database list_collections delete_all name d).0 h
        rest
        (elim (delete_collection-plain name k d h first) [
          | inl gone ↦ inr gone
          | inr (other, same) ↦ elim e [
            | inl listed ↦ inl (ground (arith, str_eq_iff k name, str_eq_iff name k))
            | inr none ↦ inr (same ∙ none)
          ]
        ])

  outcome-database :
      (p : Database × Answer (Unit {0})) → (outcome Database list_collections delete_all p).0 ≡ p.0
  outcome-database (d, answered _) = refl
  outcome-database (d, failed code) = refl

  outcome-fulfils :
      (p : Database × Answer (Unit {0}))
      → (outcome Database list_collections delete_all p).1 ≡ fulfils
      → p.1 ≡ answered tt
  outcome-fulfils (d, answered _) h = refl
  outcome-fulfils (d, failed code) h = cc

  listed_lem :
      (r : Answer (List String)) (d : Database) (k : String)
      → list_collections d ≡ r
      → let after = delete_listed Database list_collections delete_all r d in
        (is_system k ≡ true → documents after.0 k ≡ documents d k)
        × (is_system k ≡ false → after.1 ≡ fulfils → documents after.0 k ≡ [])
  listed_lem (failed code) d k e = (λ h. refl, λ h done. cc)
  listed_lem (answered names) d k e = (
    λ h.
        rw (outcome-database (delete_each Database list_collections delete_all names d))
          (delete_each-system names k d h),
    λ h done. rw (outcome-database (delete_each Database list_collections delete_all names d)) (
        delete_each-plain names k d h (outcome-fulfils _ done)
          (elim (Bool-cases (any (str_eq k) names)) [
            | inl there ↦ inl there
            | inr absent ↦ inr (law.lists d names k e absent)
          ])),
  )

  -- With a database that behaves as documented: `reset` changes no collection of the system, and if
  -- its promise is fulfilled then nothing is left in any other collection.
  pub reset_lem :
      (db : Db) (d : Database) (k : String)
      → let after = reset Database list_collections delete_all db d in
        (is_system k ≡ true → documents after.0 k ≡ documents d k)
        × (is_system k ≡ false → after.1 ≡ fulfils → documents after.0 k ≡ [])
  unfolding reset
  reset_lem pending d k = (λ h. refl, λ h e. cc)
  reset_lem empty_object d k = (λ h. refl, λ h e. cc)
  reset_lem open_db d k = listed_lem (list_collections d) d k refl
