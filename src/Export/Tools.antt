-- ===== src/Export/Tools.antt =====
-- The tools that convert a session (tools/export_session_mp4.cpp, tools/export_session_images.cpp):
-- the same but for the exporters' classes, whose start and wait are those of Export/Worker.
use kist_data_collector.Common.{
  ℕ, ◌≡◌, refl, ap, ◌∙◌, List, [], ◌∷◌, ◌++◌, Bool, true, false, not, ◌&&◌, ◌||◌, Option, none,
  some, if◌then◌else◌, arith, ◌==◌, length, length-append,
}
use kist_data_collector.Outcome.{◌>>=◌}
use kist_data_collector.Export.Worker.{
  Worker, fresh_worker, start_worker, store, clear, give_up, joined,
}

-- A directory entry of the session: whether it is a directory, whether it has the inputs of each
-- stream, and what each conversion comes to (none: `run` returns early).
pub record Entry : Type 0 where
  pub is_directory : Bool
  pub color_inputs : Bool
  pub depth_inputs : Bool
  pub color_run : Option Bool
  pub depth_run : Option Bool

-- The exporters that are running, each with what its run comes to.
pub record Job : Type 0 where
  pub color : Option (Worker × Option Bool)
  pub depth : Option (Worker × Option Bool)

-- The thread's last stores.
abbrev pub finish : Option Bool → Worker → Worker
finish none w = give_up w
finish (some complete) w = clear (store complete w)

-- `reset` if `start` returned false.
abbrev pub slot : Option Bool → Worker × Bool → Option (Worker × Option Bool)
slot run (w, ok) = if ok then some (w, run) else none

abbrev pub is_some : {A : Type 0} → Option A → Bool
is_some none = false
is_some (some a) = true

abbrev pub push_job : Job → List Job → List Job
push_job job jobs = if is_some job.color || is_some job.depth then jobs ++ job ∷ [] else jobs

-- The body of the loop over the directory; none is std::terminate.
unfoldable pub add_job : Entry → List Job → Option (List Job)
unfolding start_worker
add_job e jobs =
    if e.is_directory
    then (do
      c ← start_worker e.color_inputs fresh_worker
      d ← start_worker e.depth_inputs fresh_worker
      some (push_job (record { color = slot e.color_run c; depth = slot e.depth_run d }) jobs))
    else some jobs

abbrev pub add_jobs : List Entry → List Job → Option (List Job)
add_jobs [] jobs = some jobs
add_jobs (e ∷ es) jobs = add_job e jobs >>= add_jobs es

-- `wait` and `succeeded`
abbrev pub waited : Option (Worker × Option Bool) → Bool → Bool
waited none all_ok = all_ok
waited (some (w, run)) all_ok = all_ok && (joined (finish run w)).ok

unfoldable pub wait_all : List Job → Bool → Bool
wait_all [] all_ok = all_ok
wait_all (j ∷ jobs) all_ok = wait_all jobs (waited j.depth (waited j.color all_ok))

-- `main`: the exit code, or none for std::terminate.
unfoldable pub export_main : (has_argument is_directory : Bool) → List Entry → Option ℕ
unfolding add_job wait_all
export_main has_argument is_directory entries =
    if not has_argument || not is_directory then some 1 else (do
      jobs ← add_jobs entries []
      (if length jobs == 0 then some 1 else some (if wait_all jobs true then 0 else 1)))

-- The conversions that a session calls for.
abbrev pub runs_of : Entry → List (Option Bool)
runs_of e =
    if e.is_directory
    then (if e.color_inputs then e.color_run ∷ [] else [])
      ++ (if e.depth_inputs then e.depth_run ∷ [] else [])
    else []

abbrev pub all_runs : List Entry → List (Option Bool)
all_runs [] = []
all_runs (e ∷ es) = runs_of e ++ all_runs es

abbrev pub succeeds : Option Bool → Bool
succeeds none = false
succeeds (some complete) = complete

abbrev pub all_succeed : List (Option Bool) → Bool
all_succeed [] = true
all_succeed (r ∷ rs) = succeeds r && all_succeed rs

-- The exit code by what there is to convert and what became of it.
abbrev pub exit_code : Bool → Bool → List (Option Bool) → ℕ
exit_code has_argument is_directory runs =
    if has_argument && (is_directory && (not (length runs == 0) && all_succeed runs)) then 0 else 1

length-append-one : {A : Type 0} (xs : List A) (x : A) → length (xs ++ x ∷ []) == 0 ≡ false
length-append-one xs x = ground (arith, length-append xs (x ∷ []))

wait_all-append :
    (jobs : List Job) (j : Job) (b : Bool)
    → wait_all (jobs ++ j ∷ []) b ≡ waited j.depth (waited j.color (wait_all jobs b))
unfolding wait_all
wait_all-append [] j b = refl
wait_all-append (i ∷ jobs) j b = wait_all-append jobs j (waited i.depth (waited i.color b))

-- What the jobs so far come to: whether there are any, and whether all succeed.
Comes : (runs : List (Option Bool)) (jobs : List Job) (more : Option (List Job)) → Type 0
Comes runs jobs none = ⊥
Comes runs jobs (some later) =
    ((length later == 0) ≡ (length jobs == 0 && length runs == 0))
    × (wait_all later true ≡ (wait_all jobs true && all_succeed runs))

finished :
    (run : Option Bool) (w : Worker) → w.ok ≡ false → (joined (finish run w)).ok ≡ succeeds run
finished none w h = h
finished (some complete) w h = refl

-- One job more, which comes to `ok`.
one_more :
    (jobs : List Job) (j : Job) (ok : Bool) (runs : List (Option Bool))
    → (length runs == 0) ≡ false
    → ((b : Bool) → waited j.depth (waited j.color b) ≡ (b && ok))
    → ok ≡ all_succeed runs
    → Comes runs jobs (some (jobs ++ j ∷ []))
unfolding Comes
one_more jobs j ok runs some_run h k = (
  ground (arith, length-append-one jobs j, some_run),
  wait_all-append jobs j true ∙ h (wait_all jobs true) ∙ ap (λ b. wait_all jobs true && b) k,
)

no_more : (jobs : List Job) → Comes [] jobs (some jobs)
unfolding Comes
no_more jobs = (ground arith, ground arith)

both : (b x y x' y' : Bool) → x ≡ x' → y ≡ y' → ((b && x) && y) ≡ (b && (x' && y'))
both b x y x' y' h k = ground (arith, h, k)

add_job-cases :
    (directory color depth : Bool) (c d : Option Bool) (jobs : List Job)
    → let e : Entry = record {
      is_directory = directory;
      color_inputs = color;
      depth_inputs = depth;
      color_run = c;
      depth_run = d;
    } in
      Comes (runs_of e) jobs (add_job e jobs)
unfolding add_job
add_job-cases false color depth c d jobs = no_more jobs
add_job-cases true false false c d jobs = no_more jobs
add_job-cases true true false c d jobs =
    one_more jobs _ (succeeds c) (c ∷ []) refl (λ b. ap (λ k. b && k) (finished c _ refl))
      (ground arith)
add_job-cases true false true c d jobs =
    one_more jobs _ (succeeds d) (d ∷ []) refl (λ b. ap (λ k. b && k) (finished d _ refl))
      (ground arith)
add_job-cases true true true c d jobs =
    one_more jobs _ (succeeds c && succeeds d) (c ∷ d ∷ []) refl
      (λ b. both b _ _ _ _ (finished c _ refl) (finished d _ refl)) (ground arith)

add_job-Comes : (e : Entry) (jobs : List Job) → Comes (runs_of e) jobs (add_job e jobs)
add_job-Comes e jobs =
    add_job-cases e.is_directory e.color_inputs e.depth_inputs e.color_run e.depth_run jobs

length-zero-append :
    {A : Type 0} (xs ys : List A) → (length (xs ++ ys) == 0) ≡ (length xs == 0 && length ys == 0)
length-zero-append xs ys = ground (arith, length-append xs ys)

all_succeed-append :
    (xs ys : List (Option Bool)) → all_succeed (xs ++ ys) ≡ (all_succeed xs && all_succeed ys)
all_succeed-append [] ys = refl
all_succeed-append (x ∷ xs) ys = ground (arith, all_succeed-append xs ys)

add_jobs-Comes : (es : List Entry) (jobs : List Job) → Comes (all_runs es) jobs (add_jobs es jobs)
unfolding Comes
add_jobs-Comes [] jobs = no_more jobs
add_jobs-Comes (e ∷ es) jobs = chain (add_job e jobs) (add_job-Comes e jobs) (add_jobs-Comes es)
  where
    chain :
        (o : Option (List Job))
        → Comes (runs_of e) jobs o
        → ((later : List Job) → Comes (all_runs es) later (add_jobs es later))
        → Comes (runs_of e ++ all_runs es) jobs (o >>= add_jobs es)
    chain none h k = elim h [ ]
    chain (some later) h k = go (add_jobs es later) (k later)
      where
        go :
            (o : Option (List Job))
            → Comes (all_runs es) later o
            → Comes (runs_of e ++ all_runs es) jobs o
        go none m = elim m [ ]
        go (some last) m = (
          ground (arith, m.0, h.0, length-zero-append (runs_of e) (all_runs es)),
          ground (arith, m.1, h.1, all_succeed-append (runs_of e) (all_runs es)),
        )

pub export_main-exit :
    (has_argument is_directory : Bool) (entries : List Entry)
    → export_main has_argument is_directory entries
      ≡ some (exit_code has_argument is_directory (all_runs entries))
unfolding export_main Comes
export_main-exit false is_directory entries = refl
export_main-exit true false entries = refl
export_main-exit true true entries = last (add_jobs entries []) (add_jobs-Comes entries [])
  where
    last :
        (o : Option (List Job))
        → Comes (all_runs entries) [] o
        → (o >>= λ (jobs : List Job).
            (if length jobs == 0 then some 1 else some (if wait_all jobs true then 0 else 1)))
          ≡ some (exit_code true true (all_runs entries))
    last none h = elim h [ ]
    last (some jobs) h = ground (arith, h.0, h.1)
