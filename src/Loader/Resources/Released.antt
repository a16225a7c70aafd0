-- ===== src/Loader/Resources/Released.antt =====
-- The shared resources are released in the reverse of the order in which they were acquired.
use go_component.Prelude.{
  ℕ, ◌+◌, ◌≤◌, ◌<◌, ◌≡◌, ◌⊎◌, refl, sym, ap, ◌∙◌, Bool, true, false, not, ◌&&◌, ◌||◌, some, List,
  [], ◌∷◌, ◌++◌, arith, append_assoc, Bool-cases, inl, inr,
}
use go_component.Cleanup.{CleanupFunc, Ending, fn, nil, returns, push, completed, run_cleanup}
use go_component.Cleanup.Order.{of_list, order, IsQuiet, IsQuietFn, size, run_cleanup-order}
use go_component.Cleanup.Appended.{order-append, IsQuiet-append, size-append}
use go_component.Loader.Resources.{
  Settings, Host, Fatal, Setup, exited, running, is_set, cleanup_fn, write_end, close_cpu_profile,
  stop_cpu_profile, close_trace, stop_trace, close_mem_profile, write_mem_profile, close_listener,
  load_file, no_cpu_file, no_cpu_profile, no_trace_file, no_trace, no_mem_file, no_listener,
  load_health, and_then, load_shared_resources,
}

abbrev pub only_if : {A : Type 0} → Bool → List A → List A
only_if true l = l
only_if false l = []

-- What releasing comes to: the listener first, then each file after what was to be stopped or
-- written before.
abbrev pub releases : Settings → List ℕ
releases s =
    only_if (is_set s.health_address) (close_listener ∷ [])
    ++ only_if (is_set s.mem_profile) (write_mem_profile ∷ close_mem_profile ∷ [])
    ++ only_if (is_set s.trace) (stop_trace ∷ close_trace ∷ [])
    ++ only_if (is_set s.cpu_profile) (stop_cpu_profile ∷ close_cpu_profile ∷ [])

-- Whether the host gives what the command line asks for.
abbrev pub all_acquired : Settings → Host → Bool
all_acquired s host =
    (not (is_set s.cpu_profile) || (host.creates s.cpu_profile && host.starts_cpu_profile))
    && ((not (is_set s.trace) || (host.creates s.trace && host.starts_trace))
        && ((not (is_set s.mem_profile) || (host.creates s.mem_profile && true))
            && (not (is_set s.health_address) || host.listens s.health_address)))

-- A stack on which at most `n` functions that return were pushed, and what running it calls first.
record IsAbove (q : List CleanupFunc) (n : ℕ) (calls : List ℕ) (p : List CleanupFunc) : Type 0 where
  quiet : IsQuiet (of_list q) → IsQuiet (of_list p)
  ordered : order (of_list p) ≡ calls ++ order (of_list q)
  bounded : size (of_list p) ≤ size (of_list q) + n

pushed :
    (q fs : List CleanupFunc)
    → IsQuiet (of_list fs)
    → IsAbove q (size (of_list fs)) (order (of_list fs)) (q ++ fs)
pushed q fs silent = record {
  quiet = λ quiet. IsQuiet-append q fs quiet silent;
  ordered = order-append q fs;
  bounded = omega (arith, size-append q fs);
}

pushed_none : (q : List CleanupFunc) (n : ℕ) → IsAbove q n [] q
pushed_none q n = record { quiet = λ quiet. quiet; ordered = refl; bounded = omega arith }

IsAbove-trans :
    {q p r : List CleanupFunc} {n m : ℕ} {first second : List ℕ}
    → IsAbove q n first p
    → IsAbove p m second r
    → IsAbove q (n + m) (second ++ first) r
IsAbove-trans {q} {p} {r} {n} {m} {first} {second} a b = record {
  quiet = λ quiet. b.quiet (a.quiet quiet);
  ordered =
      b.ordered
      ∙ ap (λ l. second ++ l) a.ordered
      ∙ sym (append_assoc second first (order (of_list q)));
  bounded = omega (arith, a.bounded, b.bounded);
}

-- A step of the setup exits the process, or pushes functions.
abbrev Steps : Setup → Bool → Bool → List CleanupFunc → ℕ → List ℕ → Type 0
Steps setup given serves q n calls =
    ((given ≡ false) × (f : Fatal) × (setup ≡ exited f))
    ⊎ ((given ≡ true) × (p : List CleanupFunc) × (setup ≡ running p serves) × IsAbove q n calls p)

load_file-Steps :
    (no_file no_start : Fatal) (close stop : ℕ) (end : Ending) (asked creates starts : Bool)
    (q : List CleanupFunc)
    → IsQuietFn (fn stop nil end)
    → Steps
        (load_file no_file no_start close (fn stop nil end) asked creates starts q)
        (not asked || (creates && starts))
        false
        q
        2
        (only_if asked (stop ∷ close ∷ []))
unfolding load_file push
load_file-Steps no_file no_start close stop end true true true q calm = inr (
  refl,
  q ++ cleanup_fn close ∷ fn stop nil end ∷ [],
  ap (λ p. running p false) (append_assoc q (cleanup_fn close ∷ []) (fn stop nil end ∷ [])),
  pushed q (cleanup_fn close ∷ fn stop nil end ∷ []) (tt, (calm, tt)),
)
load_file-Steps no_file no_start close stop end true true false q calm = inl (refl, no_start, refl)
load_file-Steps no_file no_start close stop end true false starts q calm = inl (refl, no_file, refl)
load_file-Steps no_file no_start close stop end false creates starts q calm =
    inr (refl, q, refl, pushed_none q 2)

load_health-Steps :
    (s : Settings) (host : Host) (q : List CleanupFunc)
    → Steps
        (load_health s host q)
        (not (is_set s.health_address) || host.listens s.health_address)
        (is_set s.health_address)
        q
        1
        (only_if (is_set s.health_address) (close_listener ∷ []))
unfolding load_health push
load_health-Steps s host q = elim (Bool-cases (is_set s.health_address)) [
  | inl asked ↦ elim (Bool-cases (host.listens s.health_address)) [
    | inl listens ↦
        rw (asked, listens)
          (inr (
            refl,
            q ++ cleanup_fn close_listener ∷ [],
            refl,
            pushed q (cleanup_fn close_listener ∷ []) (tt, tt),
          ))
    | inr fails ↦ rw (asked, fails) (inl (refl, no_listener, refl))
  ]
  | inr free ↦ rw free (inr (refl, q, refl, pushed_none q 1))
]

and_then-Steps :
    {setup : Setup} {given more serves serves_more : Bool} {q : List CleanupFunc} {n m : ℕ}
    {calls calls_more : List ℕ} (next : List CleanupFunc → Setup)
    → Steps setup given serves q n calls
    → ((p : List CleanupFunc) → Steps (next p) more serves_more p m calls_more)
    → Steps (and_then setup next) (given && more) serves_more q (n + m) (calls_more ++ calls)
unfolding and_then
and_then-Steps next (inl (lacks, f, e)) after = inl (rw lacks refl, f, rw e refl)
and_then-Steps next (inr (given, p, e, above)) after = elim (after p) [
  | inl (lacks, f, e2) ↦ inl (rw given lacks, f, rw e e2)
  | inr (more, r, e2, above2) ↦ inr (rw given more, r, rw e e2, IsAbove-trans above above2)
]

load_shared_resources-Steps :
    (s : Settings) (host : Host) (q : List CleanupFunc)
    → host.writes_heap ≡ true
    → Steps
        (load_shared_resources s host q)
        (all_acquired s host)
        (is_set s.health_address)
        q
        7
        (releases s)
unfolding load_shared_resources
load_shared_resources-Steps s host q writes =
    and_then-Steps _
      (load_file-Steps no_cpu_file no_cpu_profile close_cpu_profile stop_cpu_profile returns
        (is_set s.cpu_profile) (host.creates s.cpu_profile) host.starts_cpu_profile q tt)
      (λ q.
        and_then-Steps _
          (load_file-Steps no_trace_file no_trace close_trace stop_trace returns (is_set s.trace)
            (host.creates s.trace) host.starts_trace q tt)
          (λ q.
            and_then-Steps (load_health s host)
              (load_file-Steps no_mem_file no_mem_file close_mem_profile write_mem_profile
                (write_end host.writes_heap) (is_set s.mem_profile) (host.creates s.mem_profile)
                true q (rw writes tt))
              (load_health-Steps s host)))

-- Where the host does not give what the command line asks for, loadSharedResources exits the process.
-- Else it starts the health server if its address is set, and leaves a cleanup stack, on which others,
-- as StartGRPC, may register further functions before it is run. If the heap profile can be written,
-- and none of those functions and of those on the stack before panics, then the stack runs to its end
-- on any fuel above their number and 7: the run calls the functions registered since; then the
-- releases of all that was acquired, the last acquired first, so that each profile is stopped or
-- written before its file is closed; and then what was on the stack before.
pub load_shared_resources-releases :
    (s : Settings) (host : Host) (q since : List CleanupFunc) (fuel : ℕ)
    → IsQuiet (of_list q)
    → IsQuiet (of_list since)
    → host.writes_heap ≡ true
    → size (of_list q) + size (of_list since) + 7 < fuel
    → ((all_acquired s host ≡ false) × (f : Fatal) × (load_shared_resources s host q ≡ exited f))
      ⊎ ((all_acquired s host ≡ true)
          × (p : List CleanupFunc) × (load_shared_resources s host q
              ≡ running p (is_set s.health_address))
          × (run_cleanup fuel (p ++ since)
              ≡ some (record {
                called = (order (of_list since) ++ releases s) ++ order (of_list q);
                left = [];
                finish = completed;
              })))
load_shared_resources-releases s host q since fuel quiet later writes enough =
    elim (load_shared_resources-Steps s host q writes) [
      | inl failed ↦ inl failed
      | inr (given, p, e, released) ↦
          let above = IsAbove-trans released (pushed p since later) in
          inr (
            given,
            p,
            e,
            run_cleanup-order (p ++ since) fuel (above.quiet quiet) (omega (arith, above.bounded))
                ∙ ap (λ calls. some (record { called = calls; left = []; finish = completed }))
                    above.ordered,
          )
    ]
