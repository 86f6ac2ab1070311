-- ===== src/Files/Storage.antt =====
-- fileStorage of internal/files/filesystem.go. One goroutine is looked at: `held` are the paths whose
-- lock it holds, the last one first. Locking a path that it holds already blocks it for ever, and
-- unlocking one that it does not hold is a fatal error of Go's. The calls of os.Root are a parameter
-- that is told the locks under which a call is made.
pub mod Locking
use arch_agent.Base.{Bool, List, Option, String, [], false, if◌then◌else◌, ◌||◌, ◌∷◌}
use arch_agent.Base.Keys.{Eq, string_eq, ◌==◌}
use arch_agent.Errors.{Error, Result, err, ok}
use arch_agent.Hooks.FileAccess.Symlinks.{root}

-- The methods with the names that they are called with. Their other arguments, and the replies, are of
-- any type `A`.
pub data Op (A : Type 0) : Type 0 where
  chmod chown chtimes lchown mkdir mkdir_all : A → String → Op A
  lstat read_file readlink remove remove_all stat : String → Op A
  write_file : A → String → Op A
  link rename symlink : String → String → Op A

-- The methods that return a File.
pub data Opening (A : Type 0) : Type 0 where
  open_op : Opening A
  open_file : A → Opening A

pub record Root (A W : Type 0) : Type 0 where
  pub perform : List String → Op A → W → Result A × W
  pub open_at : List String → Opening A → String → W → Result A × W
  pub create_at : List String → String → W → Result A × W
  pub close_file : List String → A → W → Option Error × W

-- What a method ends with: its reply, with the locks that are then held, or never, or a crash.
pub data Outcome (T W : Type 0) : Type 0 where
  replied : T → List String → W → Outcome T W
  blocks_forever : Outcome T W
  crashes : Outcome T W

unfoldable pub is_held_by : String → List String → Bool
is_held_by path [] = false
is_held_by path (p ∷ ps) = (p == path) || is_held_by path ps

unfoldable pub drop_held : String → List String → List String
drop_held path [] = []
drop_held path (p ∷ ps) = let rest = drop_held path ps in if p == path then ps else p ∷ rest

module _ {T W : Type 0} where
  -- r.flock.Lock(path), and what follows.
  unfoldable pub locking : String → List String → (List String → Outcome T W) → Outcome T W
  unfolding is_held_by
  locking path held next = if is_held_by path held then blocks_forever else next (path ∷ held)

  -- unlock(), at the end of a method.
  unfoldable pub unlocking : String → Outcome T W → Outcome T W
  unfolding is_held_by drop_held
  unlocking path (replied t held w) =
      if is_held_by path held then replied t (drop_held path held) w else crashes
  unlocking path blocks_forever = blocks_forever
  unlocking path crashes = crashes

  unfoldable pub with_lock : String → List String → (List String → Outcome T W) → Outcome T W
  unfolding locking unlocking
  with_lock path held body = locking path held (λ inner. unlocking path (body inner))

  unfoldable pub with_locks :
      String → String → List String → (List String → Outcome T W) → Outcome T W
  unfolding with_lock
  with_locks old_name new_name held body =
      with_lock old_name held (λ inner. with_lock new_name inner body)

module _ {A W : Type 0} (root : Root A W) where
  abbrev reply : {T : Type 0} → List String → T × W → Outcome T W
  reply held (t, w) = replied t held w

  -- The call of os.Root in a method.
  abbrev pub performing : Op A → W → List String → Outcome (Result A) W
  performing op w held = reply held (root.perform held op w)

  -- The methods, each with the locks that it takes.
  unfoldable pub run_op : Op A → List String → W → Outcome (Result A) W
  unfolding with_lock with_locks
  run_op (chmod a n) held w = with_lock n held (performing (chmod a n) w)
  run_op (chown a n) held w = with_lock n held (performing (chown a n) w)
  run_op (chtimes a n) held w = with_lock n held (performing (chtimes a n) w)
  run_op (lchown a n) held w = with_lock n held (performing (lchown a n) w)
  run_op (mkdir a n) held w = with_lock n held (performing (mkdir a n) w)
  run_op (mkdir_all a n) held w = with_lock n held (performing (mkdir_all a n) w)
  run_op (lstat n) held w = with_lock n held (performing (lstat n) w)
  run_op (read_file n) held w = with_lock n held (performing (read_file n) w)
  run_op (readlink n) held w = with_lock n held (performing (readlink n) w)
  run_op (remove n) held w = with_lock n held (performing (remove n) w)
  run_op (remove_all n) held w = with_lock n held (performing (remove_all n) w)
  run_op (stat n) held w = with_lock n held (performing (stat n) w)
  run_op (write_file a n) held w = with_lock n held (performing (write_file a n) w)
  run_op (link old new) held w = with_locks old new held (performing (link old new) w)
  run_op (rename old new) held w = with_locks old new held (performing (rename old new) w)
  run_op (symlink old new) held w = with_locks old new held (performing (symlink old new) w)

  -- Open and OpenFile: the lock of a file that was opened is held on.
  unfoldable pub keep_open : String → Result A → List String → W → Outcome (Result A) W
  unfolding unlocking
  keep_open name (err e) held w = unlocking name (replied (err e) held w)
  keep_open name (ok f) held w = replied (ok f) held w

  unfoldable pub run_opening : Opening A → String → List String → W → Outcome (Result A) W
  unfolding locking keep_open
  run_opening o name held w =
      locking name held
        (λ inner. let (r, w') = root.open_at inner o name w in keep_open name r inner w')

  -- Create: its deferred unlock runs although the file that it returns has the unlock, too.
  unfoldable pub create : String → List String → W → Outcome (Result A) W
  unfolding with_lock
  create name held w = with_lock name held (λ inner. reply inner (root.create_at inner name w))

  -- (*File).Close of a file that stands for `name`.
  unfoldable pub close : String → A → List String → W → Outcome (Option Error) W
  unfolding unlocking
  close name f held w = unlocking name (reply held (root.close_file held f w))
