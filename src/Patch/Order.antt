-- ===== src/Patch/Order.antt =====
-- What `apply_patch` (tools/workspace_tools.py): the order of the steps of its transaction.
use noah_code.Prelude.{
  ℕ, true, false, Option, none, some, List, [], ◌∷◌, ◌++◌, map, ◌≡◌, refl, arith, any, collect, All,
  All-map,
}
use noah_code.Python.Text.{Text, text_eq}
use noah_code.Python.Text.Laws.{text_eq_iff, text_eq_refl}
use noah_code.Files.{Bytes, File, FileSystem}
use noah_code.Journal.{option_eq}
use noah_code.Patch.{Item, content_of}
use noah_code.Patch.Commit.{
  PatchStep, stage, verify, begin_durable, record_pre, commit, sync, record_post, complete_durable,
  plan, exceeds,
}
use noah_code.Patch.Guarded.{DistinctFrom, paths, exceeds_bytes, IsReady}

same-exceeds :
    (limit : ℕ) (o : Option File) (b : Option Bytes)
    → option_eq (content_of o) b ≡ true
    → exceeds_bytes limit b ≡ false
    → exceeds limit o ≡ false
same-exceeds limit none none e h = refl
same-exceeds limit none (some b) e h = refl
same-exceeds limit (some f) none e h = ground (arith, e)
same-exceeds limit (some f) (some b) e h = rw ((text_eq_iff f.content b).0 e) h

-- Steps that may follow where the paths of the list have a started operation: before a commit its path
-- has one, before a check or a begin its path has none, and behind the completion there is no step.
module _ (limit : ℕ) (fs : FileSystem) where
  unfoldable pub IsSafe : List Text → List PatchStep → Type 0
  IsSafe d [] = Unit {0}
  IsSafe d (stage i ∷ l) = IsSafe d l
  IsSafe d (verify i ∷ l) =
      (any (text_eq i.resolved) d ≡ false)
      × (option_eq (content_of (fs i.resolved)) i.before_bytes ≡ true → IsSafe d l)
  IsSafe d (begin_durable i ∷ l) =
      (any (text_eq i.resolved) d ≡ false)
      × (exceeds limit (fs i.resolved) ≡ false)
      × IsSafe (i.resolved ∷ d) l
  IsSafe d (record_pre i ∷ l) = IsSafe d l
  IsSafe d (commit i ∷ l) = (any (text_eq i.resolved) d ≡ true) × IsSafe d l
  IsSafe d (sync i ∷ l) = IsSafe d l
  IsSafe d (record_post i ∷ l) = IsSafe d l
  IsSafe d (complete_durable ∷ l) = l ≡ []

  -- Steps that neither check, begin nor commit.
  IsSafe-map :
      (f : Item → PatchStep)
      → ((i : Item) (d : List Text) (l : List PatchStep) → IsSafe d l → IsSafe d (f i ∷ l))
      → (d : List Text) (items : List Item) (rest : List PatchStep) → IsSafe d rest
      → IsSafe d (map f items ++ rest)
  IsSafe-map f k d [] rest h = h
  IsSafe-map f k d (i ∷ items) rest h = k i d (map f items ++ rest) (IsSafe-map f k d items rest h)

  IsSafe-verify :
      (items : List Item) (rest : List PatchStep)
      → All (λ i. exceeds_bytes limit i.before_bytes ≡ false) items
      → (All (λ i. exceeds limit (fs i.resolved) ≡ false) items → IsSafe [] rest)
      → IsSafe [] (map verify items ++ rest)
  unfolding IsSafe
  IsSafe-verify [] rest w k = k tt
  IsSafe-verify (i ∷ items) rest w k = (
    refl,
    λ e.
        IsSafe-verify items rest w.1
          (λ h. k (same-exceeds limit (fs i.resolved) i.before_bytes e w.0, h)),
  )

  -- The paths with an operation behind the loop of begins.
  abbrev behind : List Text → List Item → List Text
  behind d [] = d
  behind d (i ∷ items) = behind (i.resolved ∷ d) items

  IsSafe-begin :
      (d : List Text) (items : List Item) (rest : List PatchStep)
      → DistinctFrom d (paths items)
      → All (λ i. exceeds limit (fs i.resolved) ≡ false) items
      → IsSafe (behind d items) rest
      → IsSafe d (map begin_durable items ++ rest)
  unfolding IsSafe
  IsSafe-begin d [] rest k w h = h
  IsSafe-begin d (i ∷ items) rest k w h =
      (k.0, w.0, IsSafe-begin (i.resolved ∷ d) items rest k.1 w.1 h)

  IsSafe-commit :
      (d : List Text) (items : List Item) (rest : List PatchStep)
      → All (λ i. any (text_eq i.resolved) d ≡ true) items
      → IsSafe d rest
      → IsSafe d (collect (λ i. commit i ∷ sync i ∷ []) items ++ rest)
  unfolding IsSafe
  IsSafe-commit d [] rest k h = h
  IsSafe-commit d (i ∷ items) rest k h = (k.0, IsSafe-commit d items rest k.1 h)

  any-behind :
      (p : Text) (d : List Text) (items : List Item)
      → any (text_eq p) d ≡ true
      → any (text_eq p) (behind d items) ≡ true
  any-behind p d [] h = h
  any-behind p d (i ∷ items) h = any-behind p (i.resolved ∷ d) items (ground (arith, h))

  any-behind_own :
      (d : List Text) (items : List Item)
      → All (λ i. any (text_eq i.resolved) (behind d items) ≡ true) items
  any-behind_own d [] = tt
  any-behind_own d (i ∷ items) = (
    any-behind i.resolved (i.resolved ∷ d) items (ground (arith, text_eq_refl i.resolved)),
    any-behind_own (i.resolved ∷ d) items,
  )

  IsSafe-complete : (d : List Text) → IsSafe d (complete_durable ∷ [])
  unfolding IsSafe
  IsSafe-complete d = refl

  pub plan-IsSafe :
      (seen : FileSystem) (items : List Item) → IsReady limit seen items → IsSafe [] (plan items)
  unfolding plan
  plan-IsSafe seen items h =
      IsSafe-map stage (λ i d l k. unfold IsSafe in k) [] items _
        (IsSafe-verify items _ (All-map items (λ i k. k.0) h.1) (λ w.
          IsSafe-begin [] items _ h.0 w (
            IsSafe-map record_pre (λ i d l k. unfold IsSafe in k) (behind [] items) items _
              (IsSafe-commit (behind [] items) items _ (any-behind_own [] items) (
                IsSafe-map record_post (λ i d l k. unfold IsSafe in k) (behind [] items) items _
                  (IsSafe-complete (behind [] items)))))))
