-- ===== src/Fiber/Reuse.antt =====
-- That a function runs on a fiber from the cache as it runs by itself.
use spicy.Base.{
  assertion_failed, ◌-◌, ℕ, zero, suc, ◌≤◌, ◌≡◌, refl, ap, ◌∙◌, true, false, List, [], ◌∷◌, Option,
  none, some, ltb, length, if◌then◌else◌, Result, ok, err, ◌>>=◌, All, arith,
}
use spicy.Fiber.{
  Step, yields, returns, throws, Host, running, yielded, Fiber, Context, Resumable, is_yielded,
  is_done, unless_aborting, with_function, left_by, activated, run, resume, put_back, destroy,
  create, taken, looked_at, on_fiber, run_resumable, resume_resumable, new_resumable, holding,
  resume_times, new_fiber,
}

ltb→lt : (m n : ℕ) → ltb m n ≡ true → suc m ≤ n
ltb→lt m n h = ground arith

module _ {P V E : Type 0} where
  -- Not waiting in a function, and with nothing of one on its stack.
  abbrev pub IsRest : Fiber P V E → Type 0
  IsRest f = (is_yielded f.state ≡ false) × (f.frame ≡ none)

  abbrev pub IsReady : ℕ → Context P V E → Type 0
  IsReady limit m = All IsRest m.cache × (m.cached ≡ length m.cache) × (length m.cache ≤ limit)

  -- Waiting with the rest `q` of a function.
  abbrev pub Holds : P → Fiber P V E → Type 0
  Holds q f = (f.state ≡ yielded) × (f.frame ≡ some q) × (f.exception ≡ none)

  -- What a resumable is after a function has come back.
  abbrev pub Matches : Step P V E → Resumable P V E → Option E → Type 0
  Matches (yields q) r thrown =
      (r.done ≡ false) × (thrown ≡ none) × ((f : Fiber P V E) × (r.fiber ≡ some f) × Holds q f)
  Matches (returns v) r thrown =
      (r.done ≡ true) × (r.fiber ≡ none) × (r.result ≡ some v) × (thrown ≡ none)
  Matches (throws e) r thrown =
      (r.done ≡ true) × (r.fiber ≡ none) × (r.result ≡ none) × (thrown ≡ some e)

  abbrev pub Answers : ℕ → Result (Context P V E × Resumable P V E × Option E) → Step P V E → Type 0
  Answers limit a x =
      (o : Context P V E × Resumable P V E × Option E) × (a ≡ ok o)
      × IsReady limit o.0
      × Matches x o.1 o.2

  put_back-IsReady :
      (limit : ℕ) (m : Context P V E) (f : Fiber P V E)
      → IsReady limit m
      → IsRest f
      → IsReady limit (put_back limit m f)
  put_back-IsReady limit m f (a, c, l) r =
      (elim (ltb (length m.cache) limit)
          as (λ b.
            ltb (length m.cache) limit ≡ b
            → IsReady limit (
                if b
                then record m { cache = f ∷ m.cache; cached = suc m.cached }
                else record m { current = m.current - 1 })) [
                  | true ↦ λ e. ((r, a), ap suc c, ltb→lt (length m.cache) limit e)
                  | false ↦ λ e. (a, c, l)
                ])
        refl

module _ {P V E : Type 0} (host : Host P V E) (limit : ℕ) where
  -- The function by itself, continued `n` times at most.
  unfoldable pub continued_times : ℕ → Step P V E → Step P V E
  continued_times zero x = x
  continued_times (suc n) (yields q) = continued_times n (host.continue_ q)
  continued_times (suc n) x = x

  looked_at-Answers :
      (m : Context P V E) (r : Resumable P V E) (f : Fiber P V E) (x : Step P V E)
      → IsReady limit m
      → r.done ≡ false
      → f.exception ≡ none
      → Answers limit
          (looked_at host limit m r
            (left_by f x)
            (left_by f x).exception
            (is_done (left_by f x).state))
          x
  unfolding destroy
  looked_at-Answers m r f (yields q) h d e = (
    (m, record r { fiber = some (left_by f (yields q)) }, none),
    ap (λ t. looked_at host limit m r (left_by f (yields q)) t false) e,
    h,
    (d, refl, (left_by f (yields q), refl, (refl, refl, e))),
  )
  looked_at-Answers m r f (returns v) h d e =
      let g = left_by f (returns v) in
      (
        (put_back limit m g, record { fiber = none; done = true; result = some v }, none),
        ap (λ t. looked_at host limit m r g t true) e,
        put_back-IsReady limit m g h (refl, refl),
        (refl, refl, refl, refl),
      )
  looked_at-Answers m r f (throws e) h d k =
      let g = left_by f (throws e) in
      (
        (put_back limit m g, record { fiber = none; done = true; result = none }, some e),
        refl,
        put_back-IsReady limit m g h (refl, refl),
        (refl, refl, refl, refl),
      )

  resume-Holds :
      (q : P) (f : Fiber P V E) → Holds q f → resume host f ≡ ok (left_by f (host.continue_ q))
  unfolding resume run
  resume-Holds q f (s, k, e) =
      ap
        (λ t.
          if is_yielded t
          then (activated host (unless_aborting t) f.frame f.function >>= (λ x. ok (left_by f x)))
          else err assertion_failed)
        s
      ∙ ap (λ o. activated host running o f.function >>= (λ x. ok (left_by f x))) k

  resumed-Answers :
      (m : Context P V E) (r : Resumable P V E) (q : P) (f : Fiber P V E)
      → IsReady limit m
      → r.done ≡ false
      → r.fiber ≡ some f
      → Holds q f
      → Answers limit (resume_resumable host limit m r) (host.continue_ q)
  unfolding resume_resumable
  resumed-Answers m r q f h d e k =
      let (o, eo, ro, mo) = looked_at-Answers m r f (host.continue_ q) h d k.2 in
      (
        o,
        ap (on_fiber (λ f. resume host f) host limit m r) e
            ∙ ap (λ x. x >>= (λ g. looked_at host limit m r g g.exception (is_done g.state)))
                (resume-Holds q f k)
            ∙ eo,
        ro,
        mo,
      )

  resume_times-Answers :
      (n : ℕ) (m : Context P V E) (r : Resumable P V E) (t : Option E) (x : Step P V E)
      → IsReady limit m
      → Matches x r t
      → Answers limit (resume_times host limit n (m, r, t)) (continued_times n x)
  unfolding resume_times continued_times
  resume_times-Answers zero m r t x h k = ((m, r, t), refl, h, k)
  resume_times-Answers (suc n) m r t (yields q) h (d, et, (f, ef, kf)) =
      let ((m1, r1, t1), e1, h1, k1) = resumed-Answers m r q f h d ef kf in
      let (o, eo, ho, ko) = resume_times-Answers n m1 r1 t1 (host.continue_ q) h1 k1 in
      (
        o,
        ap
              (λ b.
                if b
                then ok (m, r, t)
                else resume_resumable host limit m r >>= (λ y. resume_times host limit n y))
              d
            ∙ ap (λ a. a >>= (λ y. resume_times host limit n y)) e1
            ∙ eo,
        ho,
        ko,
      )
  resume_times-Answers (suc n) m r t (returns v) h k = (
    (m, r, t),
    ap
        (λ b.
          if b
          then ok (m, r, t)
          else resume_resumable host limit m r >>= (λ y. resume_times host limit n y))
        k.0,
    h,
    k,
  )
  resume_times-Answers (suc n) m r t (throws e) h k = (
    (m, r, t),
    ap
        (λ b.
          if b
          then ok (m, r, t)
          else resume_resumable host limit m r >>= (λ y. resume_times host limit n y))
        k.0,
    h,
    k,
  )

  -- The resumable of a fiber at rest that is given a function.
  ran-Answers :
      (m : Context P V E) (p : P) (f : Fiber P V E)
      → IsReady limit m
      → f.frame ≡ none
      → Answers limit
          (run_resumable host limit m
            (record { fiber = some (with_function p f); done = false; result = none }))
          (host.continue_ p)
  unfolding run_resumable run
  ran-Answers m p f h k =
      let r : Resumable P V E = record {
        fiber = some (with_function p f);
        done = false;
        result = none;
      } in
      let (o, eo, ho, mo) =
        looked_at-Answers m r (with_function p f) (host.continue_ p) h refl refl in
      (
        o,
        ap
              (λ q.
                activated host (unless_aborting f.state) q (some p)
                >>= (λ x. ok (left_by (with_function p f) x))
                >>= (λ g. looked_at host limit m r g g.exception (is_done g.state)))
              k
            ∙ eo,
        ho,
        mo,
      )

  -- Whatever fibers at rest the cache holds, with whatever results and exceptions of their former
  -- functions, a function that is run and resumed, n times at most, by a resumable on a fiber from
  -- create yields, returns or throws just as it does by itself: the resumable then waits in the rest
  -- of the function, or is done with its value, or has its exception rethrown. The cache then holds
  -- fibers at rest again, no more than the limit, and the count of cached fibers is right.
  pub resume_times-continued :
      (n : ℕ) (m : Context P V E) (p : P)
      → IsReady limit m
      → Answers limit
          (run_resumable host limit (new_resumable m p).0 (new_resumable m p).1
            >>= (λ o. resume_times host limit n o))
          (continued_times n (host.continue_ p))
  unfolding new_resumable create
  resume_times-continued n m p h =
      let ((m1, r1, t1), e1, h1, k1) = created m.cache h.0 h.1 h.2 in
      let (o, eo, ho, ko) = resume_times-Answers n m1 r1 t1 (host.continue_ p) h1 k1 in
      (o, ap (λ a. a >>= (λ o. resume_times host limit n o)) e1 ∙ eo, ho, ko)
    where
      created :
          (fs : List (Fiber P V E))
          → All IsRest fs
          → m.cached ≡ length fs
          → length fs ≤ limit
          → Answers limit
              (run_resumable host limit (holding p (taken m fs)).0 (holding p (taken m fs)).1)
              (host.continue_ p)
      created [] a c l = ran-Answers (taken m []).1 p new_fiber h refl
      created (f ∷ fs) a c l =
          ran-Answers (taken m (f ∷ fs)).1 p f (a.1, omega (arith, c), omega arith) a.0.1
