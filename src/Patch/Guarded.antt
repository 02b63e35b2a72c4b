-- ===== src/Patch/Guarded.antt =====
-- What `apply_patch` (tools/workspace_tools.py) has checked before its transaction.
use noah_code.Prelude.{
  ℕ, Bool, false, Option, none, some, List, [], ◌∷◌, map, ltb, ◌≡◌, refl, ap, sym, subst, length,
  any, null, All, Bool-cases, inl, inr, if◌then◌else◌, ◌∙◌,
}
use noah_code.Python.Text.{Text, text_eq, strip, has}
use noah_code.Files.{Bytes, File, FileSystem}
use noah_code.Patch.{
  PatchInputs, Change, Checked, failed, ok, and_then, Target, Item, content_of, authorize_changes,
  read_before, prepare, prepare_all, preflight, max_changes, encoded, after_of,
  validate_python_source, with_target, has, binary, not_utf8,
}

-- What is so of a result, where there is one.
abbrev pub Holds {ℓ κ} : {A : Type ℓ} → (A → Type κ) → Checked A → Type κ
Holds P (failed e) = Unit
Holds P (ok x) = P x

pub Holds-and_then {ℓ κ μ} :
    {A : Type ℓ} {B : Type κ} (P : A → Type μ) (Q : B → Type μ) (c : Checked A) (f : A → Checked B)
    → Holds P c
    → ((x : A) → P x → Holds Q (f x))
    → Holds Q (and_then c f)
Holds-and_then P Q (failed e) f h k = tt
Holds-and_then P Q (ok x) f h k = k x h

Holds-const {ℓ κ} : {A : Type ℓ} {P : Type κ} (c : Checked A) → P → Holds (λ x. P) c
Holds-const (failed e) h = tt
Holds-const (ok x) h = h

Holds-map {ℓ κ μ} :
    {A : Type ℓ} (P : A → Type κ) (Q : A → Type μ) (c : Checked A)
    → Holds P c
    → ((x : A) → P x → Q x)
    → Holds Q c
Holds-map P Q (failed e) h k = tt
Holds-map P Q (ok x) h k = k x h

-- No path stands among those before it.
abbrev pub DistinctFrom : List Text → List Text → Type 0
DistinctFrom seen [] = Unit {0}
DistinctFrom seen (p ∷ l) = (any (text_eq p) seen ≡ false) × DistinctFrom (p ∷ seen) l

abbrev pub paths : List Item → List Text
paths l = map (λ i. i.resolved) l

abbrev target_paths : List Target → List Text
target_paths l = map (λ t. t.resolved) l

abbrev pub exceeds_bytes : ℕ → Option Bytes → Bool
exceeds_bytes limit none = false
exceeds_bytes limit (some b) = ltb limit (length b)

-- What an item says of its target before the patch, whose size the rollback can store.
abbrev pub IsChecked : ℕ → FileSystem → Item → Type 0
IsChecked limit fs i =
    (exceeds_bytes limit i.before_bytes ≡ false) × (i.before_bytes ≡ content_of (fs i.resolved))

-- What the preflight gives to the transaction.
abbrev pub IsReady : ℕ → FileSystem → List Item → Type 0
IsReady limit fs items = DistinctFrom [] (paths items) × All (IsChecked limit fs) items

with_target-DistinctFrom :
    (seen : List Text) (c : Change) (rest : Text → Checked (List Target))
    → ((p : Text) → Holds (λ ts. DistinctFrom (p ∷ seen) (target_paths ts)) (rest p))
    → (o : Option Text)
    → Holds (λ ts. DistinctFrom seen (target_paths ts)) (with_target seen c rest o)
unfolding with_target
with_target-DistinctFrom seen c rest h none = tt
with_target-DistinctFrom seen c rest h (some p) = elim (Bool-cases (any (text_eq p) seen)) [
  | inl repeats ↦ rw repeats tt
  | inr fresh ↦ rw fresh (
      Holds-and_then (λ ts. DistinctFrom (p ∷ seen) (target_paths ts))
        (λ ts. DistinctFrom seen (target_paths ts)) (rest p)
        (λ ts. ok (record { path = strip c.path; resolved = p; old = c.old; new = c.new } ∷ ts))
        (h p) (λ ts k. (fresh, k)))
]

module _ (inputs : PatchInputs) where
  authorize_changes-DistinctFrom :
      (seen : List Text) (l : List Change)
      → Holds (λ ts. DistinctFrom seen (target_paths ts)) (authorize_changes inputs seen l)
  unfolding authorize_changes
  authorize_changes-DistinctFrom seen [] = tt
  authorize_changes-DistinctFrom seen (c ∷ l) = elim (Bool-cases (null (strip c.path))) [
    | inl empty ↦ rw empty tt
    | inr named ↦ rw named (
        with_target-DistinctFrom seen c (λ p. authorize_changes inputs (p ∷ seen) l)
          (λ p. authorize_changes-DistinctFrom (p ∷ seen) l) (inputs.authorize (strip c.path)))
  ]

  read_before-IsWithin :
      (limit : ℕ) (path : Text) (o : Option File)
      → Holds (λ b. exceeds_bytes limit (content_of o) ≡ false) (read_before inputs limit path o)
  unfolding read_before
  read_before-IsWithin limit path none = refl
  read_before-IsWithin limit path (some f) = elim (Bool-cases (ltb limit (length f.content))) [
    | inl large ↦ rw large tt
    | inr small ↦ rw small (
        Holds-const
          (if has 0 f.content then failed (binary path) else elim (inputs.decode f.content) [
            | none ↦ failed (not_utf8 path)
            | some t ↦ ok (some t)
          ])
          refl)
  ]

  abbrev IsPrepared : ℕ → Target → Option File → Item → Type 0
  IsPrepared limit t o i =
      (i.resolved ≡ t.resolved)
      × (exceeds_bytes limit i.before_bytes ≡ false)
      × (i.before_bytes ≡ content_of o)

  prepare-IsPrepared :
      (limit : ℕ) (t : Target) (o : Option File)
      → Holds (IsPrepared limit t o) (prepare inputs limit t o)
  unfolding prepare
  prepare-IsPrepared limit t o =
      Holds-and_then (λ b. exceeds_bytes limit (content_of o) ≡ false) (IsPrepared limit t o)
        (read_before inputs limit t.path o) _ (read_before-IsWithin limit t.path o)
        (λ b h.
          Holds-and_then (λ c. Unit {0}) (IsPrepared limit t o) (after_of t.path b t.old t.new) _
            (Holds-const (after_of t.path b t.old t.new) tt)
            (λ c k.
              Holds-and_then (λ a. Unit {0}) (IsPrepared limit t o)
                (validate_python_source inputs t.path t.resolved (encoded inputs c.1)) _
                (Holds-const (validate_python_source inputs t.path t.resolved (encoded inputs c.1))
                  tt)
                (λ a r. (refl, h, refl))))

  prepared_here :
      (limit : ℕ) (fs : FileSystem) (t : Target) (i : Item)
      → IsPrepared limit t (fs t.resolved) i
      → IsChecked limit fs i
  prepared_here limit fs t i h = (h.1, h.2 ∙ ap (λ p. content_of (fs p)) (sym h.0))

  abbrev ArePrepared : ℕ → FileSystem → List Target → List Item → Type 0
  ArePrepared limit fs l items = (paths items ≡ target_paths l) × All (IsChecked limit fs) items

  prepare_all-ArePrepared :
      (limit : ℕ) (fs : FileSystem) (l : List Target)
      → Holds (ArePrepared limit fs l) (prepare_all inputs limit fs l)
  unfolding prepare_all
  prepare_all-ArePrepared limit fs [] = (refl, tt)
  prepare_all-ArePrepared limit fs (t ∷ l) =
      Holds-and_then (IsPrepared limit t (fs t.resolved)) (ArePrepared limit fs (t ∷ l))
        (prepare inputs limit t (fs t.resolved)) _ (prepare-IsPrepared limit t (fs t.resolved))
        (λ i h.
          Holds-and_then (ArePrepared limit fs l) (ArePrepared limit fs (t ∷ l))
            (prepare_all inputs limit fs l) _ (prepare_all-ArePrepared limit fs l)
            (λ items k. (rw (h.0, k.0) refl, (prepared_here limit fs t i h, k.1))))

  pub preflight-IsReady :
      (limit : ℕ) (fs : FileSystem) (changes : List Change)
      → Holds (IsReady limit fs) (preflight inputs limit fs changes)
  unfolding preflight
  preflight-IsReady limit fs changes = elim (Bool-cases (null changes)) [
    | inl empty ↦ rw empty tt
    | inr given ↦ elim (Bool-cases (ltb max_changes (length changes))) [
      | inl many ↦ rw (given, many) tt
      | inr few ↦
          rw (given, few)
            (Holds-and_then (λ ts. DistinctFrom [] (target_paths ts)) (IsReady limit fs)
              (authorize_changes inputs [] changes) _ (authorize_changes-DistinctFrom [] changes)
              (λ ts h.
                Holds-map (ArePrepared limit fs ts) (IsReady limit fs)
                  (prepare_all inputs limit fs ts) (prepare_all-ArePrepared limit fs ts)
                  (λ items k. (subst (DistinctFrom []) (sym k.0) h, k.1))))
    ]
  ]
