-- ===== src/PathManager/Search.antt =====
-- FindPathConf of internal/conf/path.go: which configuration a name gets.
use mediamtx.Base.{
  ◌≡◌, refl, ◌≢◌, ◌⊎◌, inl, inr, arith, List, [], ◌∷◌, Option, none, some, Bool, true, false,
  Bool-cases, Option-cases, ◌||◌, ◌&&◌, is_some,
}
use mathlib.Core.Path.{subst}
use mediamtx.Base.Text.{Text}
use mediamtx.PathManager.Conf.{
  ConfEntry, Confs, lookup, NameError, Found, FindError, first_match, tries_regexp, tries_all,
  find_path_conf, is_valid_path_name, invalid_name, not_configured,
}

abbrev pub HasEntry : Text → ConfEntry → Confs → Type 0
HasEntry k c [] = ⊥
HasEntry k c ((n, d) ∷ confs) = ((n ≡ k) × (d ≡ c)) ⊎ HasEntry k c confs

module _ (find_submatch : Text → Text → Option (List Text)) where
  -- An entry that is tried and whose expression matches.
  abbrev pub is_hit : (Text → ConfEntry → Bool) → Text → Text → ConfEntry → Bool
  is_hit tries name n c = tries n c && is_some (find_submatch n name)

  abbrev pub any_hit : (Text → ConfEntry → Bool) → Text → Confs → Bool
  any_hit tries name [] = false
  any_hit tries name ((n, c) ∷ confs) = is_hit tries name n c || any_hit tries name confs

  first_match-none :
      (tries : Text → ConfEntry → Bool) (confs : Confs) (name : Text)
      → first_match find_submatch tries confs name ≡ none
      → any_hit tries name confs ≡ false
  unfolding first_match
  first_match-none tries [] name e = refl
  first_match-none tries ((n, c) ∷ confs) name e = ground (arith, first_match-none tries confs name)

  -- What a hit of a loop is.
  pub record IsHit (tries : Text → ConfEntry → Bool) (confs : Confs) (name : Text) (f : Found)
      : Type 0 where
    pub tried : tries f.conf_name f.conf ≡ true
    pub matched : find_submatch f.conf_name name ≡ some f.matches
    pub entry : HasEntry f.conf_name f.conf confs

  IsHit-cons :
      (tries : Text → ConfEntry → Bool) (n : Text) (c : ConfEntry) (confs : Confs) (name : Text)
      (f : Found)
      → IsHit tries confs name f
      → IsHit tries ((n, c) ∷ confs) name f
  IsHit-cons tries n c confs name f h = record {
    tried = h.tried;
    matched = h.matched;
    entry = inr h.entry;
  }

  IsHit-here :
      (tries : Text → ConfEntry → Bool) (n : Text) (c : ConfEntry) (confs : Confs) (name : Text)
      (m : List Text) (f : Found)
      → tries n c ≡ true
      → find_submatch n name ≡ some m
      → record { conf_name = n; conf = c; matches = m } ≡ f
      → IsHit tries ((n, c) ∷ confs) name f
  IsHit-here tries n c confs name m f ht hm e =
      subst (λ g. IsHit tries ((n, c) ∷ confs) name g) e
        (record { tried = ht; matched = hm; entry = inl (refl, refl) })

  first_match-IsHit :
      (tries : Text → ConfEntry → Bool) (confs : Confs) (name : Text) (f : Found)
      → first_match find_submatch tries confs name ≡ some f
      → IsHit tries confs name f
  unfolding first_match
  first_match-IsHit tries [] name f e = cc
  first_match-IsHit tries ((n, c) ∷ confs) name f e = elim (Bool-cases (tries n c)) [
    | inl ht ↦ elim (Option-cases (find_submatch n name)) [
      | inl hm ↦
          IsHit-cons tries n c confs name f (first_match-IsHit tries confs name f (ground arith))
      | inr (m, hm) ↦ IsHit-here tries n c confs name m f ht hm (ground arith)
    ]
    | inr hf ↦
        IsHit-cons tries n c confs name f (first_match-IsHit tries confs name f (ground arith))
  ]

  -- The name is valid, and no configuration has it.
  abbrev pub IsNotExact : Confs → Text → Type 0
  IsNotExact confs name = (is_valid_path_name name ≡ none) × (lookup name confs ≡ none)

  -- What the result of a search says of the configurations.
  abbrev pub IsRight : Confs → Text → FindError ⊎ Found → Type 0
  IsRight confs name (inl (invalid_name e)) = is_valid_path_name name ≡ some e
  IsRight confs name (inl not_configured) =
      IsNotExact confs name
      × ((any_hit tries_regexp name confs ≡ false) × (any_hit tries_all name confs ≡ false))
  IsRight confs name (inr f) =
      ((is_valid_path_name name ≡ none)
        × ((f.conf_name ≡ name) × ((lookup name confs ≡ some f.conf) × (f.matches ≡ []))))
      ⊎ (IsNotExact confs name
          × (IsHit tries_regexp confs name f
              ⊎ ((any_hit tries_regexp name confs ≡ false) × IsHit tries_all confs name f)))

  -- The search for the configuration of a name refuses an invalid name. For a valid one it gives
  -- the configuration that has the very name, with no matches, if there is one. Otherwise it
  -- gives a configuration with an expression other than those that catch all, which matches the
  -- name, with its matches. Only if no such expression matches does it give a configuration that
  -- catches all, and only if that fails too does it find nothing.
  pub find_path_conf_lem :
      (confs : Confs) (name : Text) → IsRight confs name (find_path_conf find_submatch confs name)
  unfolding find_path_conf
  find_path_conf_lem confs name =
      go (is_valid_path_name name) refl (lookup name confs) refl
        (first_match find_submatch tries_regexp confs name) refl
        (first_match find_submatch tries_all confs name) refl
    where
      go :
          (v : Option NameError)
          → is_valid_path_name name ≡ v
          → (l : Option ConfEntry) → lookup name confs ≡ l
          → (r : Option Found) → first_match find_submatch tries_regexp confs name ≡ r
          → (a : Option Found) → first_match find_submatch tries_all confs name ≡ a
          → IsRight confs name (elim v [
            | some e ↦ inl (invalid_name e)
            | none ↦ elim l [
              | some c ↦ inr (record { conf_name = name; conf = c; matches = [] })
              | none ↦ elim r [
                | some f ↦ inr f
                | none ↦ elim a [ some f ↦ inr f | none ↦ inl not_configured ]
              ]
            ]
          ])
      go (some e) ev l el r er a ea = ev
      go none ev (some c) el r er a ea = inl (ev, (refl, (el, refl)))
      go none ev none el (some f) er a ea =
          inr ((ev, el), inl (first_match-IsHit tries_regexp confs name f er))
      go none ev none el none er (some f) ea = inr (
        (ev, el),
        inr (
          first_match-none tries_regexp confs name er,
          first_match-IsHit tries_all confs name f ea,
        ),
      )
      go none ev none el none er none ea = (
        (ev, el),
        (first_match-none tries_regexp confs name er, first_match-none tries_all confs name ea),
      )

-- A configuration that is found is one of the map.
pub HasEntry-lookup :
    (k : Text) (c : ConfEntry) (confs : Confs) → HasEntry k c confs → lookup k confs ≢ none
unfolding lookup
HasEntry-lookup k c [] h e = h
HasEntry-lookup k c ((n, d) ∷ confs) (inl (en, ec)) e = ground arith
HasEntry-lookup k c ((n, d) ∷ confs) (inr h) e = ground (arith, HasEntry-lookup k c confs h)

pub find_path_conf-lookup :
    (find_submatch : Text → Text → Option (List Text)) (confs : Confs) (name : Text) (f : Found)
    → find_path_conf find_submatch confs name ≡ inr f
    → lookup f.conf_name confs ≢ none
find_path_conf-lookup find_submatch confs name f e =
    go (subst (IsRight find_submatch confs name) e (find_path_conf_lem find_submatch confs name))
  where
    go : IsRight find_submatch confs name (inr f) → lookup f.conf_name confs ≢ none
    go (inl (v, (en, (el, em)))) = ground arith
    go (inr (n, inl h)) = HasEntry-lookup f.conf_name f.conf confs h.entry
    go (inr (n, inr (k, h))) = HasEntry-lookup f.conf_name f.conf confs h.entry
