-- ===== src/Distributed/RouterService/Answers.antt =====
-- What `Heartbeat` and `WaitForEngine` of router_service.cpp answer after any calls.
use infer_sched_distributed.Base.{
  ℕ, ◌≡◌, refl, sym, ◌∙◌, ap, subst, ◌↔◌, arith, List, [], ◌∷◌, none, String, lookup, text_discrete,
}
use infer_sched_distributed.Distributed.Messages.{HeartbeatRequest}
use infer_sched_distributed.Distributed.RouterService.{
  first_engine, EngineRecord, RouterService, init, keep_live, heartbeat, wait_for_engine,
}
use infer_sched_distributed.Distributed.RouterService.Leases.{
  Event, end_of, step, run, Ordered, Lease, live, holds, lease_after, lease_of_history, lease_of,
  Agrees, pruned-lease, heartbeat-answer, step-Agrees, step-lease_ttl,
}

run-Agrees :
    (s : RouterService) (now end : ℕ) (leases : String → Lease) (es : List Event)
    → Agrees s.lease_ttl now s.engines leases
    → Ordered now es end
    → Agrees s.lease_ttl end
        (run s es).engines
        (λ id. lease_of_history s.lease_ttl id (leases id) es)
unfolding run
run-Agrees s now end leases [] v h = record {
  unique = v.unique;
  same = λ id t k. v.same id t (omega (arith, h, k));
}
run-Agrees s now end leases (e ∷ es) v h =
    let ttl = step-lease_ttl s e in
    subst
      (λ (n : ℕ).
        Agrees n end (run (step s e) es).engines
          (λ id. lease_of_history n id (lease_after s.lease_ttl id (leases id) e) es))
      ttl
      (run-Agrees (step s e) (end_of e) end _ es
        (subst
          (λ (n : ℕ).
            Agrees n (end_of e) (step s e).engines (λ id. lease_after s.lease_ttl id (leases id) e))
          (sym ttl) (step-Agrees s now leases e v h.0 h.1))
        h.2)

run-lease_ttl : (s : RouterService) (es : List Event) → (run s es).lease_ttl ≡ s.lease_ttl
unfolding run
run-lease_ttl s [] = refl
run-lease_ttl s (e ∷ es) = run-lease_ttl (step s e) es ∙ step-lease_ttl s e

history-Agrees :
    (ttl now : ℕ) (es : List Event)
    → Ordered 0 es now
    → Agrees ttl now (run (init ttl) es).engines (λ id. lease_of_history ttl id none es)
unfolding lookup
history-Agrees ttl now es h =
    run-Agrees (init ttl) 0 now (λ id. none) es (record { unique = tt; same = λ id t k. refl }) h

-- After any calls of a new Router in the order of the clock, `Heartbeat` answers that the lease is
-- good exactly where the incarnation holds the engine's lease in a description that keeps one lease
-- for each engine and prunes nothing: it was the last to register, and each of its renewals came
-- less than the time to live after the one before.
pub heartbeat-holds :
    (ttl now renewed : ℕ) (es : List Event) (r : HeartbeatRequest)
    → Ordered 0 es now
    → (heartbeat (run (init ttl) es) now renewed r).0.lease_ok
      ≡ holds ttl now r.incarnation_id (lease_of_history ttl r.engine_id none es)
heartbeat-holds ttl now renewed es r h =
    subst
      (λ (n : ℕ).
        (heartbeat (record { lease_ttl = n; engines = (run (init ttl) es).engines }) now renewed
          r).0.lease_ok
        ≡ holds ttl now r.incarnation_id (lease_of_history ttl r.engine_id none es))
      (sym (run-lease_ttl (init ttl) es))
      (heartbeat-answer ttl now now (run (init ttl) es).engines
        (λ id. lease_of_history ttl id none es) (history-Agrees ttl now es h) (omega arith) renewed
        r)

no_first :
    (m : List (String × EngineRecord)) (id : String)
    → first_engine m ≡ none
    → lookup text_discrete id m ≡ none
unfolding lookup
no_first [] id h = refl
no_first (e ∷ m) id h = absurd (ground (arith, h))

no_lease :
    (m : List (String × EngineRecord))
    → ((id : String) → lease_of (lookup text_discrete id m) ≡ none)
    → first_engine m ≡ none
unfolding lookup
no_lease [] h = refl
no_lease ((j, e) ∷ m) h = absurd (ground (arith, h j))

-- After any calls of a new Router in the order of the clock, the condition of `WaitForEngine` fails
-- exactly where no engine has a lease that is still good.
wait_for_engine-none :
    (ttl now : ℕ) (es : List Event)
    → Ordered 0 es now
    → ((wait_for_engine (run (init ttl) es) now).0 ≡ none)
      ↔ ((id : String) → live ttl now (lease_of_history ttl id none es) ≡ none)
unfolding wait_for_engine
wait_for_engine-none ttl now es h =
    let m = (run (init ttl) es).engines in
    let good =
      pruned-lease ttl now now m (λ id. lease_of_history ttl id none es)
        (history-Agrees ttl now es h) (omega arith) in
    subst
      (λ (n : ℕ).
        (first_engine (keep_live n now m) ≡ none)
        ↔ ((id : String) → live ttl now (lease_of_history ttl id none es) ≡ none))
      (sym (run-lease_ttl (init ttl) es))
      (
        λ k id. sym (good id) ∙ ap lease_of (no_first (keep_live ttl now m) id k),
        λ k. no_lease (keep_live ttl now m) (λ id. good id ∙ k id),
      )
