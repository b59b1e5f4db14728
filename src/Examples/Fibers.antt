-- ===== src/Examples/Fibers.antt =====
-- Functions that yield, on new and on cached fibers.
use spicy.Base.{false, ℕ, zero, suc, ◌≡◌, refl, true, [], ◌∷◌, none, some, ok, ◌>>=◌, arith}
use spicy.Fiber.{
  prime_cache, fresh_context, abort_resumable, yields, returns, throws, Host, Fiber, Context, idle,
  yielded, new_fiber, destroy, new_resumable, run_resumable, resume_times,
}
use spicy.Fiber.Reuse.{Answers, continued_times, resume_times-continued}

-- A function that yields `n` times and then returns 7; when aborted it throws 99.
abbrev countdown : Host ℕ ℕ ℕ
countdown = record {
  continue_ = λ n. elim n [ zero ↦ returns 7 | suc k ↦ yields k ];
  abort_ = λ n. throws 99;
}

abbrev used_fiber : Fiber ℕ ℕ ℕ
used_fiber = record {
  state = idle;
  function = none;
  frame = none;
  result = some 5;
  exception = some 3;
}

abbrev one_cached : Context ℕ ℕ ℕ
one_cached = record { cache = used_fiber ∷ []; total = 1; current = 1; cached = 1; maximum = 1 }

-- A fiber that is destroyed while it waits has its function aborted, and is cached.
destroyed_waiting :
    destroy countdown 2 one_cached (record new_fiber { state = yielded; frame = some 4 })
    ≡ ok (record one_cached {
      cache = record new_fiber { state = idle; exception = some 99 } ∷ used_fiber ∷ [];
      cached = 2;
    })
unfolding destroy
destroyed_waiting = refl

-- A function that yields when it is aborted stays on the fiber, which runs it in place of the next.
abbrev stubborn : Host ℕ ℕ ℕ
stubborn = record { continue_ = λ n. returns n; abort_ = λ n. yields n }

other_function_run :
    (destroy stubborn 2
        (record one_cached { cache = []; cached = 0 })
        (record new_fiber { state = yielded; frame = some 4 })
      >>= (λ m. run_resumable stubborn 2 (new_resumable m 8).0 (new_resumable m 8).1)
      >>= (λ o. ok o.1))
    ≡ ok (record { fiber = none; done = true; result = some 4 })
unfolding destroy run_resumable new_resumable
other_function_run = refl

resume_times_example :
    Answers 2
      (run_resumable countdown 2 (new_resumable one_cached 2).0 (new_resumable one_cached 2).1
        >>= (λ o. resume_times countdown 2 3 o))
      (continued_times countdown 2 3 (countdown.continue_ 2))
resume_times_example =
    resume_times-continued countdown 2 3 one_cached 2 (((refl, refl), tt), refl, omega arith)

primed :
    prime_cache countdown 2 fresh_context
    ≡ ok (record {
      cache = new_fiber ∷ new_fiber ∷ [];
      total = 2;
      current = 2;
      cached = 2;
      maximum = 2;
    })
unfolding prime_cache
primed = refl

-- An aborted resumable is done without a result.
aborted :
    abort_resumable countdown (record {
      fiber = some (record new_fiber { state = yielded; frame = some 4 });
      done = false;
      result = none;
    })
    ≡ ok (record {
      fiber = some (record new_fiber { state = idle; exception = some 99 });
      done = true;
      result = none;
    })
unfolding abort_resumable
aborted = refl
