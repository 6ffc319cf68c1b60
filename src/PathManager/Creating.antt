-- ===== src/PathManager/Creating.antt =====
-- The loops of internal/core/path_manager.go that create a path for each configuration of one path.
use mediamtx.Base.{
  ◌≡◌, refl, ap, ◌∙◌, ◌≢◌, ◌⊎◌, inl, inr, ◌≤◌, arith, [], ◌∷◌, none, some, Bool, true, false,
  if◌then◌else◌, Option-cases, ◌&&◌, not, is_none, is_some,
}
use mediamtx.Base.Text.{Text, dec_text}
use mediamtx.PathManager.Conf.{ConfEntry, Confs, lookup}
use mediamtx.PathManager.State.{PathRef, PathManager, create_path}
use mediamtx.PathManager.Reload.{create_missing}
use mediamtx.PathManager.Invariant.{Inv, create_path-Inv}

-- The body of the loop of doReloadConf.
abbrev step : Text → ConfEntry → PathManager → PathManager
step n c pm = if is_none (pm.paths n) && not c.has_regexp then create_path n c n [] pm else pm

step-Inv : (n : Text) (c : ConfEntry) (pm : PathManager) → Inv pm → Inv (step n c pm)
step-Inv n c pm v = go (is_none (pm.paths n) && not c.has_regexp) (λ e. ground arith)
  where
    go :
        (b : Bool)
        → (b ≡ true → pm.paths n ≡ none)
        → Inv (if b then create_path n c n [] pm else pm)
    go true free = create_path-Inv n c n [] pm v (free refl)
    go false free = v

pub create_missing-Inv : (confs : Confs) (pm : PathManager) → Inv pm → Inv (create_missing confs pm)
unfolding create_missing
create_missing-Inv [] pm v = v
create_missing-Inv ((n, c) ∷ confs) pm v =
    create_missing-Inv confs (step n c pm) (step-Inv n c pm v)

-- A path that there is stays.
pub create_missing-keeps :
    (confs : Confs) (pm : PathManager) (k : Text) (x : PathRef)
    → pm.paths k ≡ some x
    → (create_missing confs pm).paths k ≡ some x
unfolding create_missing create_path
create_missing-keeps [] pm k x e = e
create_missing-keeps ((n, c) ∷ confs) pm k x e =
    create_missing-keeps confs (step n c pm) k x (ground (arith, ap pm.paths {x = n} {y = k}))

-- A path that there was not is of a configuration of its name.
abbrev pub IsNew : Confs → PathManager → Text → PathRef → Type 0
IsNew confs pm k x =
    (pm.paths k ≡ none)
    × ((x.conf_name ≡ k) × ((lookup k confs ≢ none) × (pm.next_pointer ≤ x.pointer)))

step-IsNew :
    (n : Text) (c : ConfEntry) (pm : PathManager) (k : Text) (x : PathRef)
    → (step n c pm).paths k ≡ some x
    → (pm.paths k ≡ some x)
      ⊎ ((pm.paths k ≡ none) × ((x.conf_name ≡ k) × ((n ≡ k) × (pm.next_pointer ≤ x.pointer))))
unfolding create_path
step-IsNew n c pm k x e = ground (arith, ap pm.paths {x = n} {y = k})

next_pointer-step :
    (n : Text) (c : ConfEntry) (pm : PathManager) → pm.next_pointer ≤ (step n c pm).next_pointer
unfolding create_path
next_pointer-step n c pm = ground arith

paths-step :
    (n : Text) (c : ConfEntry) (pm : PathManager) (k : Text)
    → (step n c pm).paths k ≡ none
    → pm.paths k ≡ none
unfolding create_path
paths-step n c pm k e = ground arith

pub create_missing-IsNew :
    (confs : Confs) (pm : PathManager) (k : Text) (x : PathRef)
    → (create_missing confs pm).paths k ≡ some x
    → (pm.paths k ≡ some x) ⊎ IsNew confs pm k x
unfolding create_missing lookup
create_missing-IsNew [] pm k x e = inl e
create_missing-IsNew ((n, c) ∷ confs) pm k x e =
    elim (create_missing-IsNew confs (step n c pm) k x e) [
      | inl old ↦ ground (arith, step-IsNew n c pm k x old)
      | inr (free, (en, (hl, hp))) ↦
          ground (arith, paths-step n c pm k free, next_pointer-step n c pm)
    ]

step-none :
    (n : Text) (c : ConfEntry) (pm : PathManager) (k : Text)
    → n ≡ k
    → c.has_regexp ≡ false
    → (step n c pm).paths k ≢ none
unfolding create_path
step-none n c pm k e r h = ground (arith, ap pm.paths e)

-- After the loop each configuration that stands for one path has a path of its name.
pub create_missing-is_some :
    (confs : Confs) (pm : PathManager) (k : Text) (c : ConfEntry)
    → lookup k confs ≡ some c
    → c.has_regexp ≡ false
    → is_some ((create_missing confs pm).paths k) ≡ true
unfolding create_missing lookup
create_missing-is_some [] pm k c e r = cc
create_missing-is_some ((n, d) ∷ confs) pm k c e r = elim (dec_text n k) [
  | yes q ↦ elim (Option-cases ((step n d pm).paths k)) [
    | inl o ↦ absurd (step-none n d pm k q (ground arith) o)
    | inr (x, o) ↦ ground (arith, create_missing-keeps confs (step n d pm) k x o)
  ]
  | no q ↦ create_missing-is_some confs (step n d pm) k c (ground arith) r
]

pub path_confs-create_missing :
    (confs : Confs) (pm : PathManager) → (create_missing confs pm).path_confs ≡ pm.path_confs
unfolding create_missing create_path
path_confs-create_missing [] pm = refl
path_confs-create_missing ((n, c) ∷ confs) pm =
    path_confs-create_missing confs (step n c pm) ∙ ground arith
