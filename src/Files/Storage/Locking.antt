-- ===== src/Files/Storage/Locking.antt =====
-- The locks of fileStorage in internal/files/filesystem.go.
use arch_agent.Base.{not}
use arch_agent.Files.Storage.{
  remove, Op, Opening, Root, Outcome, replied, blocks_forever, crashes, run_op, with_lock,
  with_locks, locking, unlocking, is_held_by, drop_held, run_opening, keep_open, create, close,
}
use arch_agent.Base.{
  Bool, Bool-cases, List, String, [], false, if◌then◌else◌, inl, inr, refl, true, ◌∷◌, ◌≡◌,
}
use arch_agent.Base.Keys.{==_self, string_eq, ◌==◌}
use arch_agent.Errors.{Result, err, ok}
use arch_agent.Files.Storage.{
  chmod, chown, chtimes, lchown, link, lstat, mkdir, mkdir_all, read_file, readlink, remove_all,
  rename, stat, symlink, write_file,
}
use arch_agent.Files.Storage.{performing}

-- The names that a method is called with: what it works on.
abbrev pub called_with : {A : Type 0} → Op A → List String
called_with (chmod a n) = n ∷ []
called_with (chown a n) = n ∷ []
called_with (chtimes a n) = n ∷ []
called_with (lchown a n) = n ∷ []
called_with (mkdir a n) = n ∷ []
called_with (mkdir_all a n) = n ∷ []
called_with (lstat n) = n ∷ []
called_with (read_file n) = n ∷ []
called_with (readlink n) = n ∷ []
called_with (remove n) = n ∷ []
called_with (remove_all n) = n ∷ []
called_with (stat n) = n ∷ []
called_with (write_file a n) = n ∷ []
called_with (link a b) = a ∷ b ∷ []
called_with (rename a b) = a ∷ b ∷ []
called_with (symlink a b) = a ∷ b ∷ []

abbrev pub distinct_names : List String → Bool
distinct_names (a ∷ b ∷ []) = not (a == b)
distinct_names _ = true

abbrev pub reversed : List String → List String
reversed (a ∷ b ∷ []) = b ∷ a ∷ []
reversed ns = ns

-- What a method comes to that makes its call under the locks `inner` and gives them all back.
abbrev pub performed : {A W : Type 0} → Root A W → List String → Op A → W → Outcome (Result A) W
performed os inner op w = let (r, w') = os.perform inner op w in replied r [] w'

abbrev pub is_ok {ℓ} : {A : Type ℓ} → Result A → Bool
is_ok (ok a) = true
is_ok (err e) = false

module _ {A W : Type 0} (os : Root A W) where
  one_name :
      (n : String) (op : Op A) (w : W)
      → with_lock n [] (performing os op w) ≡ performed os (n ∷ []) op w
  unfolding with_lock locking unlocking is_held_by drop_held
  one_name n op w = rw (==_self n) refl

  two_names :
      (a b : String) (op : Op A) (w : W)
      → with_locks a b [] (performing os op w)
        ≡ (if not (a == b) then performed os (b ∷ a ∷ []) op w else blocks_forever)
  unfolding with_locks with_lock locking unlocking is_held_by drop_held
  two_names a b op w = elim (Bool-cases (a == b)) [
    | inl q ↦ rw q refl
    | inr q ↦ rw (q, ==_self b, ==_self a) refl
  ]

  pub run_op-locks :
      (op : Op A) (w : W)
      → run_op os op [] w ≡ (
          if distinct_names (called_with op)
          then performed os (reversed (called_with op)) op w
          else blocks_forever)
  unfolding run_op
  run_op-locks (chmod a n) w = one_name n _ w
  run_op-locks (chown a n) w = one_name n _ w
  run_op-locks (chtimes a n) w = one_name n _ w
  run_op-locks (lchown a n) w = one_name n _ w
  run_op-locks (mkdir a n) w = one_name n _ w
  run_op-locks (mkdir_all a n) w = one_name n _ w
  run_op-locks (lstat n) w = one_name n _ w
  run_op-locks (read_file n) w = one_name n _ w
  run_op-locks (readlink n) w = one_name n _ w
  run_op-locks (remove n) w = one_name n _ w
  run_op-locks (remove_all n) w = one_name n _ w
  run_op-locks (stat n) w = one_name n _ w
  run_op-locks (write_file a n) w = one_name n _ w
  run_op-locks (link a b) w = two_names a b _ w
  run_op-locks (rename a b) w = two_names a b _ w
  run_op-locks (symlink a b) w = two_names a b _ w

  keep_open-locks :
      (name : String) (r : Result A) (v : W)
      → keep_open os name r (name ∷ []) v ≡ replied r (if is_ok r then name ∷ [] else []) v
  unfolding keep_open unlocking is_held_by drop_held
  keep_open-locks name (err e) v = rw (==_self name) refl
  keep_open-locks name (ok f) v = refl

  -- Open or OpenFile by a goroutine that holds no lock leaves it holding the lock of the name if it
  -- succeeds and none if it fails; closing the file under that lock leaves it holding none.
  pub run_opening-close :
      (o : Opening A) (name : String) (f : A) (w : W)
      → let (r, w') = os.open_at (name ∷ []) o name w in
        let (e, v) = os.close_file (name ∷ []) f w' in
        (run_opening os o name [] w ≡ replied r (if is_ok r then name ∷ [] else []) w')
        × (close os name f (name ∷ []) w' ≡ replied e [] v)
  unfolding run_opening locking is_held_by close unlocking drop_held
  run_opening-close o name f w = (keep_open-locks name _ _, rw (==_self name) refl)

  -- A file that Create returns to a goroutine that holds no lock has no lock behind it, and closing it
  -- is a fatal error.
  pub create-close :
      (name : String) (f : A) (w v : W)
      → os.create_at (name ∷ []) name w ≡ (ok f, v)
      → (create os name [] w ≡ replied (ok f) [] v) × (close os name f [] v ≡ crashes)
  unfolding create with_lock locking unlocking is_held_by drop_held close
  create-close name f w v q = (rw (q, ==_self name) refl, refl)
