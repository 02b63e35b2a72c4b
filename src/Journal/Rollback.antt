-- ===== src/Journal/Rollback.antt =====
-- The rollback of a loop of writes that failed.
use noah_code.Prelude.{
  ℕ, zero, suc, ◌<◌, true, Option, none, some, List, [], ◌∷◌, ◌++◌, ◌≡◌, refl, ap, sym, ◌∙◌, arith,
  length, subst, ◌≢◌,
}
use mathlib.Core.List.{reverse, reverse-cons}
use noah_code.Python.Text.{Text}
use noah_code.Files.{Bytes, File, FileSystem, put_file, put_file_self, put_file-undo}
use noah_code.Journal.{
  FileMutation, preimage, with_postimage, pre_file, post_file, write_all, write_or_roll_back,
  write_failed,
}
use noah_code.Journal.Recorded.{
  Edit, edit, edited, IsSmall, AllSmall, mutation_of, mutations_of, fold_writes, fold_writes-undo,
  pre_file-mutation_of, post_file-mutation_of, write_all-none,
}

-- Before each write, what the path holds is what the rollback would write.
abbrev pub Restorable :
    (FileMutation → Option File)
    → (FileMutation → Option File)
    → FileSystem
    → List FileMutation
    → Type 0
Restorable file back fs [] = Unit {0}
Restorable file back fs (m ∷ l) =
    (fs m.path ≡ back m) × Restorable file back (put_file fs m.path (file m)) l

Restorable-append :
    (file back : FileMutation → Option File) (fs : FileSystem) (k l : List FileMutation)
    → Restorable file back fs k
    → Restorable file back (fold_writes file k fs) l
    → Restorable file back fs (k ++ l)
unfolding fold_writes
Restorable-append file back fs [] l h h' = h'
Restorable-append file back fs (m ∷ k) l h h' =
    (h.0, Restorable-append file back (put_file fs m.path (file m)) k l h.1 h')

fold_writes-undone :
    (file back : FileMutation → Option File) (applied : List FileMutation) (m : FileMutation)
    (fs : FileSystem)
    → fs m.path ≡ back m
    → fold_writes back (m ∷ applied) (put_file fs m.path (file m)) ≡ fold_writes back applied fs
unfolding fold_writes
fold_writes-undone file back applied m fs h =
    ap (λ o. fold_writes back applied (put_file (put_file fs m.path (file m)) m.path o)) (sym h)
    ∙ ap (fold_writes back applied) (put_file-undo fs m.path (file m))

-- The rollback of what was applied gives what it would have given before the loop.
write_all_restored :
    (file back : FileMutation → Option File) (fault : Option ℕ) (applied l : List FileMutation)
    (fs : FileSystem)
    → Restorable file back fs l
    → fold_writes back (write_all file fault applied l fs).0 (write_all file fault applied l fs).1
      ≡ fold_writes back applied fs
unfolding write_all
write_all_restored file back none applied [] fs h = refl
write_all_restored file back (some zero) applied [] fs h = refl
write_all_restored file back (some (suc n)) applied [] fs h = refl
write_all_restored file back (some zero) applied (m ∷ l) fs h = refl
write_all_restored file back (some (suc n)) applied (m ∷ l) fs h =
    write_all_restored file back (some n) (m ∷ applied) l (put_file fs m.path (file m)) h.1
    ∙ fold_writes-undone file back applied m fs h.0
write_all_restored file back none applied (m ∷ l) fs h =
    write_all_restored file back none (m ∷ applied) l (put_file fs m.path (file m)) h.1
    ∙ fold_writes-undone file back applied m fs h.0

write_all_fails :
    (file : FileMutation → Option File) (fault : ℕ) (applied l : List FileMutation)
    (fs : FileSystem)
    → fault < length l
    → (write_all file (some fault) applied l fs).2 ≡ true
unfolding write_all
write_all_fails file zero applied [] fs h = ground (arith, h)
write_all_fails file (suc n) applied [] fs h = ground (arith, h)
write_all_fails file zero applied (m ∷ l) fs h = refl
write_all_fails file (suc n) applied (m ∷ l) fs h =
    write_all_fails file n (m ∷ applied) l (put_file fs m.path (file m)) (omega (arith, h))

-- A loop of writes that fails is rolled back.
pub write_or_roll_back_fault :
    (file back : FileMutation → Option File) (fault : ℕ) (l : List FileMutation) (fs : FileSystem)
    → Restorable file back fs l
    → fault < length l
    → write_or_roll_back file back (some fault) none l fs ≡ (fs, some write_failed)
unfolding write_or_roll_back fold_writes
write_or_roll_back_fault file back fault l fs h bound =
    let r = write_all file (some fault) [] l fs in
    let undone = write_all-none back [] r.0 r.1 in
    rw (write_all_fails file fault [] l fs bound, undone.1)
      (ap (λ x. (x, some write_failed))
        (undone.0 ∙ write_all_restored file back (some fault) [] l fs h))

-- A write that fails is an error, whatever the rollback does.
pub write_or_roll_back_raises :
    (file back : FileMutation → Option File) (fault : ℕ) (again : Option ℕ) (l : List FileMutation)
    (fs : FileSystem)
    → fault < length l
    → (write_or_roll_back file back (some fault) again l fs).1 ≢ none
unfolding write_or_roll_back
write_or_roll_back_raises file back fault again l fs bound =
    rw (write_all_fails file fault [] l fs bound) (ground arith)

-- A loop of writes that does not fail does them all.
pub write_or_roll_back_done :
    (file back : FileMutation → Option File) (again : Option ℕ) (l : List FileMutation)
    (fs : FileSystem)
    → write_or_roll_back file back none again l fs ≡ (fold_writes file l fs, none)
unfolding write_or_roll_back
write_or_roll_back_done file back again l fs =
    rw (write_all-none file [] l fs).1 (ap (λ x. (x, none)) (write_all-none file [] l fs).0)

module _ (sha256 : Bytes → Text) (limit turn_id : ℕ) where
  mutation_of-Restorable :
      (fs : FileSystem) (e : Edit)
      → IsSmall limit e.file
      → Restorable pre_file post_file (edit fs e) (mutation_of sha256 limit turn_id fs e ∷ [])
  unfolding preimage with_postimage
  mutation_of-Restorable fs e h = (
    put_file_self fs e.path e.file
        ∙ sym (unfold preimage with_postimage in post_file-mutation_of sha256 limit turn_id fs e h),
    tt,
  )

  pub undo-Restorable :
      (fs : FileSystem) (l : List Edit)
      → AllSmall limit fs l
      → Restorable pre_file post_file
          (edited fs l)
          (reverse (mutations_of sha256 limit turn_id fs l))
  unfolding edited mutations_of
  undo-Restorable fs [] h = tt
  undo-Restorable fs (e ∷ l) h =
      let m : FileMutation = mutation_of sha256 limit turn_id fs e in
      let ms : List FileMutation = mutations_of sha256 limit turn_id (edit fs e) l in
      subst (Restorable pre_file post_file (edited (edit fs e) l)) (sym (reverse-cons m ms)) (
        Restorable-append pre_file post_file (edited (edit fs e) l) (reverse ms) (m ∷ [])
          (undo-Restorable (edit fs e) l h.2)
          (subst (λ g. Restorable pre_file post_file g (m ∷ []))
            (sym (fold_writes-undo sha256 limit turn_id (edit fs e) l h.2))
            (mutation_of-Restorable fs e h.1)))

  pub redo-Restorable :
      (fs : FileSystem) (l : List Edit)
      → AllSmall limit fs l
      → Restorable post_file pre_file fs (mutations_of sha256 limit turn_id fs l)
  unfolding mutations_of with_postimage preimage
  redo-Restorable fs [] h = tt
  redo-Restorable fs (e ∷ l) h = (
    sym (pre_file-mutation_of sha256 limit turn_id fs e h.0),
    subst
        (λ o.
          Restorable post_file pre_file (put_file fs e.path o)
            (mutations_of sha256 limit turn_id (edit fs e) l))
        (sym (post_file-mutation_of sha256 limit turn_id fs e h.1))
        (redo-Restorable (edit fs e) l h.2),
  )
