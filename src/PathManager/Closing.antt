-- ===== src/PathManager/Closing.antt =====
-- The inner loops of doReloadConf in internal/core/path_manager.go.
use mediamtx.Base.{
  ◌≡◌, refl, ap, inl, inr, arith, List, [], ◌∷◌, Option, none, some, Bool, true, false,
  if◌then◌else◌, Bool-cases, Option-cases, ◌||◌,
}
use mediamtx.Base.Text.{Text, dec_text, same}
use mediamtx.PathManager.Conf.{ConfEntry}
use mediamtx.PathManager.State.{PathRef, PathManager, emit, remove_path, close_path, reload_path}
use mediamtx.PathManager.Reload.{close_all, reload_all}
use mediamtx.PathManager.Invariant.{
  Has, Inv, IsAlone, emit-Inv, remove_path-Inv, remove_path-IsAlone, registered-IsAlone,
}

-- What is left of an entry of the map of paths when the paths of configuration `c` are closed.
abbrev pub unless_conf : Text → Option PathRef → Option PathRef
unless_conf c none = none
unless_conf c (some x) = if same x.conf_name c then none else some x

abbrev pub is_name_of_any : Text → List PathRef → Bool
is_name_of_any n [] = false
is_name_of_any n (x ∷ xs) = same x.name n || is_name_of_any n xs

paths-close_all :
    (pas : List PathRef) (pm : PathManager) (n : Text)
    → (close_all pas pm).paths n ≡ (if is_name_of_any n pas then none else pm.paths n)
unfolding close_all remove_path
paths-close_all [] pm n = refl
paths-close_all (pa ∷ pas) pm n =
    ground (arith, paths-close_all pas (emit (close_path pa) (remove_path pa pm)) n)

is_name_of_any-Has :
    (n : Text) (xs : List PathRef)
    → is_name_of_any n xs ≡ true
    → (x : PathRef) × (Has x xs × (x.name ≡ n))
is_name_of_any-Has n [] h = cc
is_name_of_any-Has n (x ∷ xs) h = elim (dec_text x.name n) [
  | yes e ↦ (x, (inl refl, e))
  | no k ↦ let (y, (hy, e)) = is_name_of_any-Has n xs (ground (arith)) in (y, (inr hy, e))
]

Has-is_name_of_any : (x : PathRef) (xs : List PathRef) → Has x xs → is_name_of_any x.name xs ≡ true
Has-is_name_of_any x [] h = absurd h
Has-is_name_of_any x (y ∷ ys) (inl e) = ground (arith, ap (λ (r : PathRef). r.name) e)
Has-is_name_of_any x (y ∷ ys) (inr h) = ground (arith, Has-is_name_of_any x ys h)

-- The loop that closes the paths of a configuration takes those away, and no other.
pub paths-close_all_conf :
    (c : Text) (pm : PathManager) (n : Text)
    → Inv pm
    → (close_all (pm.paths_by_conf c) pm).paths n ≡ unless_conf c (pm.paths n)
paths-close_all_conf c pm n v = elim (Bool-cases (is_name_of_any n (pm.paths_by_conf c))) [
  | inl e ↦
      let (x, (h, en)) = is_name_of_any-Has n _ e in
      let (r, ec) = v.registered c x h in
      ground (arith, paths-close_all (pm.paths_by_conf c) pm n, ap pm.paths en)
  | inr e ↦ elim (Option-cases (pm.paths n)) [
    | inl o ↦ ground (arith, paths-close_all (pm.paths_by_conf c) pm n)
    | inr (x, o) ↦ ground (
      arith,
      paths-close_all (pm.paths_by_conf c) pm n,
      v.named n x o,
      v.indexed n x o,
      Has-is_name_of_any x (pm.paths_by_conf c),
    )
  ]
]

close_all-go :
    (pas : List PathRef) (pm : PathManager)
    → ((x : PathRef) → Has x pas → IsAlone x pm)
    → Inv pm
    → Inv (close_all pas pm)
unfolding close_all
close_all-go [] pm alone v = v
close_all-go (pa ∷ pas) pm alone v =
    close_all-go pas (emit (close_path pa) (remove_path pa pm))
      (λ x h. remove_path-IsAlone pa x pm (alone x (inr h)))
      (emit-Inv (close_path pa) _ (remove_path-Inv pa pm v (alone pa (inl refl))))

pub close_all-Inv : (c : Text) (pm : PathManager) → Inv pm → Inv (close_all (pm.paths_by_conf c) pm)
close_all-Inv c pm v =
    close_all-go (pm.paths_by_conf c) pm
      (λ x h. let (r, e) = v.registered c x h in registered-IsAlone x pm v r) v

pub reload_all-Inv :
    (pas : List PathRef) (c : ConfEntry) (pm : PathManager) → Inv pm → Inv (reload_all pas c pm)
unfolding reload_all
reload_all-Inv [] c pm v = v
reload_all-Inv (pa ∷ pas) c pm v = reload_all-Inv pas c _ (emit-Inv (reload_path pa c) pm v)

pub paths-reload_all :
    (pas : List PathRef) (c : ConfEntry) (pm : PathManager) → (reload_all pas c pm).paths ≡ pm.paths
unfolding reload_all
paths-reload_all [] c pm = refl
paths-reload_all (pa ∷ pas) c pm = paths-reload_all pas c (emit (reload_path pa c) pm)

pub next_pointer-close_all :
    (pas : List PathRef) (pm : PathManager) → (close_all pas pm).next_pointer ≡ pm.next_pointer
unfolding close_all remove_path
next_pointer-close_all [] pm = refl
next_pointer-close_all (pa ∷ pas) pm =
    next_pointer-close_all pas (emit (close_path pa) (remove_path pa pm))

pub next_pointer-reload_all :
    (pas : List PathRef) (c : ConfEntry) (pm : PathManager)
    → (reload_all pas c pm).next_pointer ≡ pm.next_pointer
unfolding reload_all
next_pointer-reload_all [] c pm = refl
next_pointer-reload_all (pa ∷ pas) c pm = next_pointer-reload_all pas c (emit (reload_path pa c) pm)
