-- ===== src/PathManager/Invariant.antt =====
-- What holds of the two maps of paths of internal/core/path_manager.go.
use mediamtx.Base.{ℕ, ◌≡◌, ap, ◌≢◌, ◌⊎◌, inl, inr, ◌<◌, arith, List, [], ◌∷◌, none, some}
use mediamtx.Base.Text.{Text, dec_text}
use mediamtx.PathManager.Conf.{ConfEntry, lookup}
use mediamtx.PathManager.State.{
  PathRef, PathManager, Action, emit, update, erase, create_path, remove_path,
}
use mathlib.Core.Logic.{ite, if_pos, if_neg}

abbrev pub Has : PathRef → List PathRef → Type 0
Has x [] = ⊥
Has x (y ∷ ys) = (x ≡ y) ⊎ Has x ys

-- Each path stands under its name and in the set of its configuration, and nowhere else. No two of
-- them have one pointer.
pub record Inv (pm : PathManager) : Type 0 where
  pub named : (n : Text) (x : PathRef) → pm.paths n ≡ some x → x.name ≡ n
  pub indexed :
      (n : Text) (x : PathRef) → pm.paths n ≡ some x → Has x (pm.paths_by_conf x.conf_name)
  pub registered :
      (c : Text) (x : PathRef)
      → Has x (pm.paths_by_conf c)
      → (pm.paths x.name ≡ some x) × (x.conf_name ≡ c)
  pub below : (n : Text) (x : PathRef) → pm.paths n ≡ some x → x.pointer < pm.next_pointer
  pub distinct :
      (n m : Text) (x y : PathRef)
      → pm.paths n ≡ some x
      → pm.paths m ≡ some y
      → x.pointer ≡ y.pointer
      → n ≡ m

-- Each path has a configuration.
abbrev pub IsConfigured : PathManager → Type 0
IsConfigured pm =
    (n : Text) (x : PathRef) → pm.paths n ≡ some x → lookup x.conf_name pm.path_confs ≢ none

pub emit-Inv : (a : Action) (pm : PathManager) → Inv pm → Inv (emit a pm)
emit-Inv a pm v = record {
  named = v.named;
  indexed = v.indexed;
  registered = v.registered;
  below = v.below;
  distinct = v.distinct;
}

pub update-same {ℓ} : {V : Type ℓ} (m : Text → V) (k j : Text) (v : V) → k ≡ j → update m k v j ≡ v
update-same m k j v e = if_pos (dec_text k j) e v (m j)

pub update-other {ℓ} :
    {V : Type ℓ} (m : Text → V) (k j : Text) (v : V) → k ≢ j → update m k v j ≡ m j
update-other m k j v n = if_neg (dec_text k j) n v (m j)

pub Has-update :
    (x : PathRef) (m : Text → List PathRef) (k j : Text) (v : List PathRef)
    → Has x (update m k v j)
    → ((k ≡ j) × Has x v) ⊎ ((k ≢ j) × Has x (m j))
Has-update x m k j v = go (dec_text k j)
  where
    go : (d : Dec (k ≡ j)) → Has x (ite d v (m j)) → ((k ≡ j) × Has x v) ⊎ ((k ≢ j) × Has x (m j))
    go (yes p) h = inl (p, h)
    go (no n) h = inr (n, h)

pub Has-erase :
    (p : ℕ) (x : PathRef) (xs : List PathRef) → Has x xs → x.pointer ≢ p → Has x (erase p xs)
unfolding erase
Has-erase p x [] h n = h
Has-erase p x (y ∷ ys) (inl e) n = ground (arith, ap (λ (r : PathRef). r.pointer) e)
Has-erase p x (y ∷ ys) (inr h) n = ground (arith, Has-erase p x ys h n)

pub erase-Has :
    (p : ℕ) (x : PathRef) (xs : List PathRef) → Has x (erase p xs) → Has x xs × (x.pointer ≢ p)
unfolding erase
erase-Has p x [] h = absurd h
erase-Has p x (y ∷ ys) h = ground (arith, erase-Has p x ys, ap (λ (r : PathRef). r.pointer))

-- A new path, under a name that has none.
pub create_path-Inv :
    (c : Text) (conf : ConfEntry) (name : Text) (matches : List Text) (pm : PathManager)
    → Inv pm
    → pm.paths name ≡ none
    → Inv (create_path c conf name matches pm)
unfolding create_path
create_path-Inv c conf name matches pm v free = record {
  named = λ n x e. ground (arith, v.named n x);
  indexed = λ n x e. ground (arith, v.indexed n x);
  registered = λ c' x h.
      ground (arith, v.registered c' x, v.registered c x, Has-update x pm.paths_by_conf c c' _ h);
  below = λ n x e. ground (arith, v.below n x);
  distinct = λ n m x y e e' p. ground (arith, v.distinct n m x y, v.below n x, v.below m y);
}

-- No path but `pa` has its name or its pointer.
abbrev pub IsAlone : PathRef → PathManager → Type 0
IsAlone pa pm =
    (n : Text) (x : PathRef)
    → pm.paths n ≡ some x
    → (x.name ≡ pa.name) ⊎ (x.pointer ≡ pa.pointer)
    → x ≡ pa

pub registered-IsAlone :
    (pa : PathRef) (pm : PathManager) → Inv pm → pm.paths pa.name ≡ some pa → IsAlone pa pm
registered-IsAlone pa pm v e n x ex (inl same_name) = ground (arith, v.named n x)
registered-IsAlone pa pm v e n x ex (inr same_pointer) = ground (arith, v.distinct n pa.name x pa)

pub remove_path-Inv :
    (pa : PathRef) (pm : PathManager) → Inv pm → IsAlone pa pm → Inv (remove_path pa pm)
unfolding remove_path
remove_path-Inv pa pm v alone = record {
  named = λ n x e. ground (arith, v.named n x);
  indexed = λ n x e. ground (
    arith,
    v.indexed n x,
    alone n x,
    v.named n x,
    Has-erase pa.pointer x (pm.paths_by_conf x.conf_name),
  );
  registered = λ c x h. ground (
    arith,
    v.registered c x,
    Has-update x pm.paths_by_conf pa.conf_name c _ h,
    erase-Has pa.pointer x (pm.paths_by_conf pa.conf_name),
    alone x.name x,
    ap (λ (r : PathRef). r.pointer),
  );
  below = λ n x e. ground (arith, v.below n x);
  distinct = λ n m x y e e' p. ground (arith, v.distinct n m x y);
}

-- Removal takes paths away.
pub paths-remove_path :
    (pa : PathRef) (pm : PathManager) (n : Text) (x : PathRef)
    → (remove_path pa pm).paths n ≡ some x
    → (pm.paths n ≡ some x) × (pa.name ≢ n)
unfolding remove_path
paths-remove_path pa pm n x e = ground arith

pub remove_path-IsAlone :
    (pa q : PathRef) (pm : PathManager) → IsAlone q pm → IsAlone q (remove_path pa pm)
remove_path-IsAlone pa q pm alone n x e =
    let (e', _) = paths-remove_path pa pm n x e in alone n x e'
