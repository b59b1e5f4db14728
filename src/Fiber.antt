-- ===== src/Fiber.antt =====
-- Fibers and the resumables that run on them (hilti/runtime/include/fiber.h,
-- hilti/runtime/src/fiber.cc), one resumable at a time. What a function does until it yields, and
-- when it is aborted, is the parameter `Host`; how stacks are switched is not modelled.
pub mod Reuse
use spicy.Base.{
  ℕ, zero, suc, ◌+◌, ◌-◌, Bool, true, false, List, [], ◌∷◌, Option, none, some, ltb, length,
  if◌then◌else◌, Result, ok, err, ◌>>=◌, undefined, internal_error, assertion_failed,
}

-- How a function comes back to the one that runs it: with the rest of it to be continued, with its
-- value, or with an exception.
pub data Step (P V E : Type 0) : Type 0 where
  yields : P → Step P V E
  returns : V → Step P V E
  throws : E → Step P V E

pub record Host (P V E : Type 0) : Type 0 where
  pub continue_ : P → Step P V E
  pub abort_ : P → Step P V E

pub data State : Type 0 where
  init running aborting yielded idle finished : State

-- `frame` is what the fiber's stack holds of a function that has yielded.
pub record Fiber (P V E : Type 0) : Type 0 where
  pub state : State
  pub function : Option P
  pub frame : Option P
  pub result : Option V
  pub exception : Option E

-- The fibers of the context and their statistics; the cache's last fiber is the first of the list.
pub record Context (P V E : Type 0) : Type 0 where
  pub cache : List (Fiber P V E)
  pub total : ℕ
  pub current : ℕ
  pub cached : ℕ
  pub maximum : ℕ

pub record Resumable (P V E : Type 0) : Type 0 where
  pub fiber : Option (Fiber P V E)
  pub done : Bool
  pub result : Option V

abbrev pub is_yielded : State → Bool
is_yielded yielded = true
is_yielded _ = false

abbrev pub is_done : State → Bool
is_done running = false
is_done yielded = false
is_done _ = true

abbrev pub unless_aborting : State → State
unless_aborting aborting = aborting
unless_aborting _ = running

abbrev pub larger : ℕ → ℕ → ℕ
larger m n = if ltb m n then n else m

module _ {P V E : Type 0} where
  abbrev pub new_fiber : Fiber P V E
  new_fiber = record {
    state = init;
    function = none;
    frame = none;
    result = none;
    exception = none;
  }

  -- `Fiber::init`.
  abbrev pub with_function : P → Fiber P V E → Fiber P V E
  with_function p f = record f { result = none; exception = none; function = some p }

  -- What a function leaves: `Fiber::yield`, and the end of the trampoline's round.
  abbrev pub left_by : Fiber P V E → Step P V E → Fiber P V E
  left_by f (yields q) = record f { state = yielded; frame = some q }
  left_by f (returns v) = record f { state = idle; function = none; frame = none; result = some v }
  left_by f (throws e) = record f {
    state = idle;
    function = none;
    frame = none;
    exception = some e;
  }

  abbrev pub continued_in : Host P V E → State → P → Step P V E
  continued_in host aborting p = host.abort_ p
  continued_in host _ p = host.continue_ p

  abbrev pub started : Host P V E → Option P → Result (Step P V E)
  started host none = err undefined
  started host (some p) = ok (host.continue_ p)

  -- What runs once the fiber is switched to: what it has yielded from, or its function.
  abbrev pub activated : Host P V E → State → Option P → Option P → Result (Step P V E)
  activated host s (some q) function = ok (continued_in host s q)
  activated host s none function = started host function

  unfoldable pub run : Host P V E → Fiber P V E → Result (Fiber P V E)
  run host f =
      activated host (unless_aborting f.state) f.frame f.function >>= (λ x. ok (left_by f x))

  unfoldable pub resume : Host P V E → Fiber P V E → Result (Fiber P V E)
  unfolding run
  resume host f = if is_yielded f.state then run host f else err assertion_failed

  unfoldable pub abort : Host P V E → Fiber P V E → Result (Fiber P V E)
  unfolding run
  abort host f =
      if is_yielded f.state then run host (record f { state = aborting }) else err assertion_failed

  -- `Fiber::create`.
  abbrev pub taken : Context P V E → List (Fiber P V E) → Fiber P V E × Context P V E
  taken m (f ∷ fs) = (f, record m { cache = fs; cached = m.cached - 1 })
  taken m [] = (
    new_fiber,
    record m {
      total = suc m.total;
      current = suc m.current;
      maximum = larger m.maximum (suc m.current);
    },
  )

  unfoldable pub create : Context P V E → Fiber P V E × Context P V E
  create m = taken m m.cache

  abbrev pub put_back : ℕ → Context P V E → Fiber P V E → Context P V E
  put_back limit m f =
      if ltb (length m.cache) limit
      then record m { cache = f ∷ m.cache; cached = suc m.cached }
      else record m { current = m.current - 1 }

  -- `Fiber::destroy`, with the size of the cache that is configured.
  unfoldable pub destroy : Host P V E → ℕ → Context P V E → Fiber P V E → Result (Context P V E)
  unfolding abort
  destroy host limit m f =
      (if is_yielded f.state then abort host f else ok f) >>= (λ g. ok (put_back limit m g))

  -- `Resumable::yielded`.
  abbrev pub looked_at :
      Host P V E
      → ℕ
      → Context P V E
      → Resumable P V E
      → Fiber P V E
      → Option E
      → Bool
      → Result (Context P V E × Resumable P V E × Option E)
  looked_at host limit m r f (some e) is_done =
      destroy host limit m f
      >>= (λ n. ok (n, record { fiber = none; done = true; result = none }, some e))
  looked_at host limit m r f none true =
      destroy host limit m f
      >>= (λ n. ok (n, record { fiber = none; done = true; result = f.result }, none))
  looked_at host limit m r f none false = ok (m, record r { fiber = some f }, none)

  abbrev pub on_fiber :
      (Fiber P V E → Result (Fiber P V E))
      → Host P V E
      → ℕ
      → Context P V E
      → Resumable P V E
      → Option (Fiber P V E)
      → Result (Context P V E × Resumable P V E × Option E)
  on_fiber switch host limit m r none = err internal_error
  on_fiber switch host limit m r (some f) =
      switch f >>= (λ g. looked_at host limit m r g g.exception (is_done g.state))

  unfoldable pub run_resumable :
      Host P V E
      → ℕ
      → Context P V E
      → Resumable P V E
      → Result (Context P V E × Resumable P V E × Option E)
  unfolding run destroy
  run_resumable host limit m r = on_fiber (λ f. run host f) host limit m r r.fiber

  unfoldable pub resume_resumable :
      Host P V E
      → ℕ
      → Context P V E
      → Resumable P V E
      → Result (Context P V E × Resumable P V E × Option E)
  unfolding resume destroy
  resume_resumable host limit m r = on_fiber (λ f. resume host f) host limit m r r.fiber

  -- The constructor from a function.
  abbrev pub holding : P → Fiber P V E × Context P V E → Context P V E × Resumable P V E
  holding p (f, m) = (m, record { fiber = some (with_function p f); done = false; result = none })

  unfoldable pub new_resumable : Context P V E → P → Context P V E × Resumable P V E
  unfolding create
  new_resumable m p = holding p (create m)

  -- A host that runs a function and resumes it until it is done, but `n` times at most.
  abbrev pub resumed_while :
      (Context P V E → Resumable P V E → Result (Context P V E × Resumable P V E × Option E))
      → Context P V E × Resumable P V E × Option E
      → Result (Context P V E × Resumable P V E × Option E)
  resumed_while next (m, r, thrown) = if r.done then ok (m, r, thrown) else next m r

  unfoldable pub resume_times :
      Host P V E
      → ℕ
      → ℕ
      → Context P V E × Resumable P V E × Option E
      → Result (Context P V E × Resumable P V E × Option E)
  unfolding resume_resumable
  resume_times host limit zero x = ok x
  resume_times host limit (suc n) x =
      resumed_while (λ m r. resume_resumable host limit m r >>= (λ y. resume_times host limit n y))
        x

  -- `Resumable::abort`: the resumable keeps its fiber.
  abbrev pub abort_held :
      Host P V E → Resumable P V E → Option (Fiber P V E) → Result (Resumable P V E)
  abort_held host r none = ok r
  abort_held host r (some f) =
      abort host f >>= (λ g. ok (record { fiber = some g; done = true; result = none }))

  unfoldable pub abort_resumable : Host P V E → Resumable P V E → Result (Resumable P V E)
  unfolding abort
  abort_resumable host r = abort_held host r r.fiber

  -- The destructor.
  abbrev pub drop_held :
      Host P V E → ℕ → Context P V E → Option (Fiber P V E) → Result (Context P V E)
  drop_held host limit m none = ok m
  drop_held host limit m (some f) = destroy host limit m f

  unfoldable pub drop_resumable :
      Host P V E → ℕ → Context P V E → Resumable P V E → Result (Context P V E)
  unfolding destroy
  drop_resumable host limit m r = drop_held host limit m r.fiber

  -- The loops of `Fiber::primeCache`; the last fiber created is the first of the list.
  unfoldable pub create_fibers :
      ℕ → List (Fiber P V E) × Context P V E → List (Fiber P V E) × Context P V E
  unfolding create
  create_fibers zero x = x
  create_fibers (suc n) (fibers, m) = create_fibers n ((create m).0 ∷ fibers, (create m).1)

  unfoldable pub destroy_fibers :
      Host P V E → ℕ → List (Fiber P V E) → Context P V E → Result (Context P V E)
  unfolding destroy
  destroy_fibers host limit [] m = ok m
  destroy_fibers host limit (f ∷ fs) m =
      destroy host limit m f >>= (λ n. destroy_fibers host limit fs n)

  unfoldable pub prime_cache : Host P V E → ℕ → Context P V E → Result (Context P V E)
  unfolding create_fibers destroy_fibers
  prime_cache host limit m =
      destroy_fibers host limit (create_fibers limit ([], m)).0 (create_fibers limit ([], m)).1

  abbrev pub fresh_context : Context P V E
  fresh_context = record { cache = []; total = 0; current = 0; cached = 0; maximum = 0 }

  -- `Fiber::reset`.
  abbrev pub reset_context : Context P V E → Context P V E
  reset_context m = fresh_context
