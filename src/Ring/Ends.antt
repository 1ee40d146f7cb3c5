-- ===== src/Ring/Ends.antt =====
-- How a call through the ring ends.
use mentra.Base.{
  ℕ, zero, suc, ◌+◌, ◌≤◌, ◌<◌, ◌≡◌, refl, Option, none, some, List, [], ◌∷◌, ◌++◌, Bool, false, not,
  ◌||◌, ◌==◌, leb, if◌then◌else◌, arith, All, Bool-cases, inl, inr, lt→ltb,
}
use mentra.Base.Partial.{◌>>=◌}
use mentra.Ring.Member.{GatewayRingPolicy, FailureKind, counted, immediate, not_the_members_fault}
use mentra.Ring.Member
use mentra.Ring.Health.{
  RingHealth, Selection, Rotation, on_probation, streak_of, select, failed, rotates, is_not_theirs,
}
use mentra.Ring.Lookup.{member, get_elem?-member_or}
use mentra.Ring.Rotate.{next_member-InRange}
use mentra.Ring.Failure.{failed_in_range, failed-eq}
use mentra.Ring.Run.{
  Names, succeeds, step, Healthy, failed-Healthy, select-Healthy, step-Healthy, run_from-Healthy,
}
use mentra.Ring.Call
use mentra.Ring.Call.{
  World, Outcome, answered, refused, Answer, ok, err, Turn, done, again, report, settle, attempt,
  turns, with_rotation, finished, member_failed, rotated, recovered, GatewayRingEvent,
}

abbrev ToBelow : ℕ → RingHealth × Option Rotation → Type 0
ToBelow n (h, none) = Unit {0}
ToBelow n (h, some r) = r.to < n

failed-ToBelow :
    (n : ℕ) (h : RingHealth) (index : ℕ) (kind : FailureKind) (policy : GatewayRingPolicy) (now : ℕ)
    → Healthy n h
    → ToBelow n (failed_in_range h index kind policy now)
failed-ToBelow n h index kind policy now v =
    elim (Bool-cases (not (index == h.current) || is_not_theirs kind)) [
      | inl t ↦ rw t tt
      | inr f ↦ elim (Bool-cases (rotates kind policy (Member.failed (member h index)))) [
        | inl go ↦
            rw (f, go)
              (omega (
                arith,
                v.size,
                next_member-InRange h index policy.cooldown now (ground (arith, v.size)),
              ))
        | inr stay ↦ rw (f, stay) tt
      ]
    ]

module _ {V E : Type 0} (w : World V E) (policy : GatewayRingPolicy) (n : ℕ)
    (fair : (k point : ℕ) → All (Names n) (w.others k point)) where
  -- The answer is the one that member `i` gave to the attempt `k`.
  abbrev pub AnsweredAt : ℕ → ℕ → Answer V E → Type 0
  AnsweredAt k i (ok v) = w.op k i ≡ answered v
  AnsweredAt k i (err e) = (kind : FailureKind) × (w.op k i ≡ refused e kind)

  abbrev Good : ℕ → ℕ → Turn V E → Type 0
  Good k i (done a h log) = Healthy n h × AnsweredAt k i a
  Good k i (again to h log) = Healthy n h × (to < n) × (k < n)

  report-Good :
      (k i : ℕ) (e : E) (kind : FailureKind) (r : RingHealth × Option Rotation)
      (log : List (GatewayRingEvent E))
      → i < n
      → w.op k i ≡ refused e kind
      → Healthy n r.0
      → ToBelow n r
      → (t : Turn V E) × (report w policy n k i e kind r log ≡ some t) × Good k i t
  unfolding streak_of
  report-Good k i e kind (h, none) log lt said v below =
      let (h', ran, v') = run_from-Healthy n policy (w.others k 2) h (fair k 2) v in
      (
        done (err e) h' (log ++ member_failed i kind (member h' i).streak e ∷ []),
        rw (ran, get_elem?-member_or h'.members i (omega (arith, v'.size))),
        (v', (kind, said)),
      )
  report-Good k i e kind (h, some r) log lt said v below = elim (Bool-cases (leb n k)) [
    | inl last ↦ (
      done (err e) h (
          log
          ++ member_failed i kind r.after_failures e ∷ rotated r.from r.to r.after_failures ∷ []),
      rw (lt→ltb r.to n below, last),
      (v, (kind, said)),
    )
    | inr more ↦ (
      again r.to h (
          log
          ++ member_failed i kind r.after_failures e ∷ rotated r.from r.to r.after_failures ∷ []),
      rw (lt→ltb r.to n below, more),
      (v, below, ground arith),
    )
  ]

  refusal-Good :
      (k i : ℕ) (e : E) (kind : FailureKind) (h : RingHealth) (log : List (GatewayRingEvent E))
      → i < n
      → w.op k i ≡ refused e kind
      → Healthy n h
      → (t : Turn V E) × ((failed h i kind policy (w.clock k) >>= λ r.
            report w policy n k i e kind r log)
          ≡ some t)
        × Good k i t
  refusal-Good k i e kind h log lt said v =
      rw (failed-eq h i kind policy (w.clock k) (omega (arith, v.size))) (
        report-Good k i e kind (failed_in_range h i kind policy (w.clock k)) log lt said
          (failed-Healthy n h i kind policy (w.clock k) v)
          (failed-ToBelow n h i kind policy (w.clock k) v))

  settle-Good :
      (k i : ℕ) (probation : Bool) (o : Outcome V E) (h : RingHealth)
      (log : List (GatewayRingEvent E))
      → i < n
      → w.op k i ≡ o
      → Healthy n h
      → (t : Turn V E) × (settle w policy n k i probation o h log ≡ some t) × Good k i t
  unfolding step
  settle-Good k i probation (answered x) h log lt said v =
      let (h', e, v') = step-Healthy n policy (succeeds i) h lt v in
      (done (ok x) h' (if probation then log ++ recovered i ∷ [] else log), rw e, (v', said))
  settle-Good k i probation (refused e not_the_members_fault) h log lt said v =
      (done (err e) h log, refl, (v, (not_the_members_fault, said)))
  settle-Good k i probation (refused e counted) h log lt said v =
      refusal-Good k i e counted h log lt said v
  settle-Good k i probation (refused e immediate) h log lt said v =
      refusal-Good k i e immediate h log lt said v

  attempt-Good :
      (k : ℕ) (s : Selection) (h : RingHealth) (log : List (GatewayRingEvent E))
      → s.index < n
      → Healthy n h
      → (t : Turn V E) × (attempt w policy n k s h log ≡ some t) × Good k s.index t
  unfolding attempt on_probation
  attempt-Good k s h log lt v =
      let (h1, ran, v1) = run_from-Healthy n policy (w.others k 0) h (fair k 0) v in
      let (h2, ran', v2) = run_from-Healthy n policy (w.others k 1) h1 (fair k 1) v1 in
      rw
        (
          lt→ltb s.index n lt,
          ran,
          get_elem?-member_or h1.members h1.current (omega (arith, v1.size, v1.in_range)),
          ran',
        )
        (settle-Good k s.index _ (w.op k s.index) h2 _ lt refl v2)

  -- The attempts of a call that begins at `first` on the ring `start`: the first one, and one more
  -- after each that the loop does not end with. An attempt is its number, the member that it asks,
  -- the ring and the events so far.
  pub data Made (first : Selection) (start : RingHealth)
      : ℕ → Selection → RingHealth → List (GatewayRingEvent E) → Type 0 where
    begins : Made first start 1 first start []
    follows :
        {k to : ℕ} {s : Selection} {h h' : RingHealth} {log log' : List (GatewayRingEvent E)}
        → Made first start k s h log
        → attempt w policy n k s h log ≡ some (again to h' log')
        → Made first start (k + 1) (record { index = to; returned = false }) h' log'

  -- The call came back after an attempt that it made and that ended it, among its first `n`, with
  -- the answer that a member of the ring gave to that attempt.
  pub record Ends (first : Selection) (start : RingHealth) (end : Call.Ended w policy n)
      : Type 0 where
    pub answer : Answer V E
    pub health : RingHealth
    pub log : List (GatewayRingEvent E)
    pub attempts : ℕ
    pub last : Selection
    pub before : RingHealth
    pub log_before : List (GatewayRingEvent E)
    pub is_finished : end ≡ finished answer health log
    pub healthy : Healthy n health
    pub bounded : (0 < attempts) × (attempts ≤ n)
    pub asked : last.index < n
    pub made : Made first start attempts last before log_before
    pub is_last : attempt w policy n attempts last before log_before ≡ some (done answer health log)
    pub given : AnsweredAt attempts last.index answer

  turns-Ends :
      (first : Selection) (start : RingHealth) (fuel k : ℕ) (s : Selection) (h : RingHealth)
      (log : List (GatewayRingEvent E))
      → Made first start (k + 1) s h log
      → 0 < fuel
      → fuel + k ≡ n
      → s.index < n
      → Healthy n h
      → Ends first start (turns w policy n fuel k s h log)
  unfolding turns
  turns-Ends first start zero k s h log made pos sum lt v = absurd (omega arith)
  turns-Ends first start (suc fuel) k s h log made pos sum lt v =
      go (attempt-Good (k + 1) s h log lt v) (turns-Ends first start fuel (k + 1))
    where
      go :
          (t : Turn V E) × (attempt w policy n (k + 1) s h log ≡ some t) × Good (k + 1) s.index t
          → ((s' : Selection) (h' : RingHealth) (log' : List (GatewayRingEvent E))
              → Made first start (k + 1 + 1) s' h' log'
              → 0 < fuel
              → fuel + (k + 1) ≡ n
              → s'.index < n
              → Healthy n h'
              → Ends first start (turns w policy n fuel (k + 1) s' h' log'))
          → Ends first start (turns w policy n (suc fuel) k s h log)
      go (done a h' log', e, (v', given)) rest = record {
        answer = a;
        health = h';
        log = log';
        attempts = k + 1;
        last = s;
        before = h;
        log_before = log;
        is_finished = rw (e, turns);
        healthy = v';
        bounded = omega arith;
        asked = lt;
        made = made;
        is_last = e;
        given = given;
      }
      go (again to h' log', e, (v', below, more)) rest =
          rw (e, turns)
            (rest (record { index = to; returned = false }) h' log' (Made.follows made e)
              (omega arith) (omega arith) below v')

  -- Whatever the other callers do meanwhile, a call on a healthy ring of `n` members begins at the
  -- member that the ring selects and comes back after at most `n` attempts, with no panic and the
  -- ring healthy, and its result is the value or the error that a member of the ring gave to the
  -- last attempt that it made.
  pub with_rotation-Ends :
      (now : ℕ) (h : RingHealth)
      → Healthy n h
      → (start : RingHealth) × (first : Selection) × (select h policy now ≡ some (start, first))
        × Ends first start (with_rotation w policy n now h)
  unfolding with_rotation
  with_rotation-Ends now h v =
      let (h', s, e, v', here) = select-Healthy n h policy now v in
      (
        h',
        s,
        e,
        rw (e, with_rotation)
            (turns-Ends s h' n 0 s h' [] Made.begins (omega (arith, v.in_range)) (omega arith)
              (rw here v'.in_range) v'),
      )
