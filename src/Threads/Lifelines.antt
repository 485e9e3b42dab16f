-- ===== src/Threads/Lifelines.antt =====
-- analyzer.go: `Pool` and `StackSig`; session.go: `Lifelines` and `FrozenThreads`.
pub mod Continuity
use text.Mathlib.Text.{starts_with}
use utilities.Base.{
  ℕ, zero, suc, ◌+◌, ◌≡◌, refl, ◌↔◌, String, Bool, true, false, ◌||◌, ◌&&◌, Option, none, some,
  List, [], ◌∷◌, map, Keyed, ◌==◌, string_keyed, str_append, Dict, lookup, insert, length, set,
  take, replicate, sort_by, keep, ltb, leb, eqb, if◌then◌else◌, arith,
}
use utilities.Threads.Dump.{Frame, Thread, frame_sig}
use utilities.Threads.Deadlocks.{string_ltb}
use utilities.Threads.Runs.{signature_run_max}

abbrev pub starts_any : String → List String → Bool
starts_any name [] = false
starts_any name (p ∷ ps) = starts_with name p || starts_any name ps

unfoldable pub pool : String → String
pool name =
    if starts_any name ("http-nio-" ∷ "http-bio-" ∷ "ajp-nio-" ∷ "Catalina-utility-" ∷ [])
    then "tomcat"
    else if starts_any name ("qtp" ∷ [])
    then "jetty"
    else if starts_any name ("HikariPool-" ∷ [])
    then "hikari"
    else if starts_any name ("DB-pool-" ∷ "C3P0PooledConnectionPoolManager" ∷ [])
    then "c3p0"
    else if starts_any name ("nioEventLoopGroup-" ∷ "epollEventLoopGroup-" ∷ [])
    then "netty"
    else if starts_any name ("reactor-http-" ∷ "reactor-tcp-" ∷ [])
    then "reactor"
    else if starts_any name ("kafka-producer-" ∷ "kafka-consumer-" ∷ "kafka-coordinator-" ∷ [])
    then "kafka"
    else if starts_any name ("default-dispatcher-" ∷ "akka.actor.default-dispatcher" ∷ [])
    then "akka"
    else if starts_any name ("grpc-" ∷ [])
    then "grpc"
    else if starts_any name ("ForkJoinPool" ∷ "commonPool-worker" ∷ [])
    then "forkjoin"
    else if starts_any name ("GC " ∷ [])
        || (name == "VM Thread"
            || (name == "VM Periodic Task Thread"
                || (name == "Service Thread"
                    || (name == "C1 CompilerThread"
                        || starts_any name ("C2 CompilerThread" ∷ [])))))
    then "jvm"
    else if starts_any name ("Reference Handler" ∷ "Finalizer" ∷ "Signal Dispatcher" ∷ [])
    then "jvm-internal"
    else if starts_any name ("scheduling-" ∷ "TaskScheduler-" ∷ [])
    then "scheduler"
    else ""

-- What `StackSig` writes into the hash.
unfoldable pub frame_lines : List Frame → String
frame_lines [] = ""
frame_lines (f ∷ fs) = str_append (frame_sig f) (str_append "\n" (frame_lines fs))

unfoldable pub stack_text : List Frame → ℕ → String
unfolding frame_lines
stack_text frames top =
    let n = if eqb top 0 || ltb (length frames) top then length frames else top in
    if eqb n 0 then "(no stack)" else frame_lines (take n frames)

pub record ThreadKey : Type 0 where
  pub name : String
  pub tid : String

abbrev pub same_key : ThreadKey → ThreadKey → Bool
same_key k j = k.name == j.name && k.tid == j.tid

pub same_key_iff : (k j : ThreadKey) → (same_key k j ≡ true) ↔ (k ≡ j)
same_key_iff k j =
    ground (arith, string_keyed.same_iff k.name j.name, string_keyed.same_iff k.tid j.tid)

instance abbrev pub key_keyed : Keyed ThreadKey
key_keyed = record { same = same_key; same_iff = same_key_iff }

-- `signature_run_max` is set when all the dumps are read.
pub record ThreadLifeline : Type 0 where
  pub key : ThreadKey
  pub pool : String
  pub states : List (Option String)
  pub stack_sigs : List String
  pub signature_run_max : ℕ

abbrev pub key_of : Thread → ThreadKey
key_of t = record { name = t.name; tid = t.tid }

-- The lifeline of a thread that `count` dumps may have, when it is first seen.
unfoldable pub new_lifeline : ℕ → Thread → ThreadLifeline
unfolding pool
new_lifeline count t = record {
  key = key_of t;
  pool = pool t.name;
  states = replicate count none;
  stack_sigs = replicate count "";
  signature_run_max = 0;
}

abbrev pub finish_lifeline : ThreadLifeline → ThreadLifeline
finish_lifeline l = record l { signature_run_max = signature_run_max l.stack_sigs }

abbrev pub lifeline_less : ThreadLifeline → ThreadLifeline → Bool
lifeline_less a b =
    if eqb a.signature_run_max b.signature_run_max
    then string_ltb a.key.name b.key.name
    else ltb b.signature_run_max a.signature_run_max

-- `digest` is the first 16 hexadecimal digits of the SHA-1 of a text.
module _ (digest : String → String) where
  unfoldable pub stack_sig : List Frame → ℕ → String
  unfolding stack_text
  stack_sig frames top = digest (stack_text frames top)

  -- A thread of the dump at `di`.
  unfoldable pub mark_thread :
      ℕ → ℕ → ℕ → Thread → Dict ThreadKey ThreadLifeline → Dict ThreadKey ThreadLifeline
  unfolding stack_sig new_lifeline
  mark_thread count top di t idx =
      let l : ThreadLifeline = elim (lookup (key_of t) idx) [
        | none ↦ new_lifeline count t
        | some l ↦ l
      ] in
      insert (key_of t)
        (record l {
          states = set l.states di (some t.state);
          stack_sigs = set l.stack_sigs di (stack_sig t.frames top);
        })
        idx

  unfoldable pub mark_dump :
      ℕ → ℕ → ℕ → List Thread → Dict ThreadKey ThreadLifeline → Dict ThreadKey ThreadLifeline
  unfolding mark_thread
  mark_dump count top di [] idx = idx
  mark_dump count top di (t ∷ ts) idx = mark_dump count top di ts (mark_thread count top di t idx)

  unfoldable pub mark_dumps :
      ℕ → ℕ → ℕ → List (List Thread) → Dict ThreadKey ThreadLifeline → Dict ThreadKey ThreadLifeline
  unfolding mark_dump
  mark_dumps count top di [] idx = idx
  mark_dumps count top di (d ∷ ds) idx =
      mark_dumps count top (di + 1) ds (mark_dump count top di d idx)

  -- `top` is 0 for any `topFrames` that is not positive.
  unfoldable pub lifelines : List (List Thread) → ℕ → List ThreadLifeline
  unfolding mark_dumps signature_run_max sort_by
  lifelines dumps top = sort_by lifeline_less (
      map (λ e. finish_lifeline e.1)
        (mark_dumps (length dumps) (if eqb top 0 then 8 else top) 0 dumps []))

  unfoldable pub frozen_threads : List (List Thread) → ℕ → ℕ → List ThreadLifeline
  unfolding lifelines keep
  frozen_threads dumps min_run top =
      keep (λ l. leb min_run l.signature_run_max) (lifelines dumps top)
