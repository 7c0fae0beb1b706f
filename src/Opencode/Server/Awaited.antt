-- ===== src/Opencode/Server/Awaited.antt =====
-- The processes of spawns that are under way: each is that of its vendor's pending spawn.
use espur.Base.{
  ℕ, ◌≡◌, refl, ap, subst, inl, inr, Bool, not, Option, none, some, Bytes, same_iff, ◌==◌, ==_iff,
  if_rule, lookup, delete, lookup-insert, lookup-delete, bytes_eq, nat_eq, arith, Bool-cases,
}
use espur.Opencode.Server.{
  Servers, Step, Runs, new_servers, start_process, usable, drop_dead, pended, looked, look,
  complete, close_all,
}

-- A process that no connection has is that of a spawn under way.
abbrev pub IsAwaited : Servers → Type 0
IsAwaited s = (p : ℕ) (id : Bytes) → lookup p s.starting ≡ some id → lookup id s.pending ≡ some p

pended-IsAwaited :
    (id : Bytes) (o : Option ℕ) (s : Servers)
    → lookup id s.pending ≡ o
    → IsAwaited s
    → IsAwaited (pended id o s).1
pended-IsAwaited id (some p) s e h = h
pended-IsAwaited id none s e h = λ q i f. ground (
  arith,
  lookup-insert id i s.next s.pending,
  same_iff id i,
  ap (λ j. lookup j s.pending),
  h q i f,
)

looked-IsAwaited :
    (id : Bytes) (o : Option ℕ) (s : Servers) → IsAwaited s → IsAwaited (looked id o s).1
looked-IsAwaited id (some n) s h = h
looked-IsAwaited id none s h = dropped (lookup id s.conns)
  where
    dropped : (o : Option ℕ) → IsAwaited (pended id (lookup id s.pending) (drop_dead id o s)).1
    dropped none = pended-IsAwaited id (lookup id s.pending) (drop_dead id none s) refl h
    dropped (some n) = pended-IsAwaited id (lookup id s.pending) (drop_dead id (some n) s) refl h

start-IsAwaited :
    (id : Bytes) (p : ℕ) (s : Servers)
    → lookup id s.pending ≡ some p
    → IsAwaited s
    → IsAwaited (start_process id p s)
start-IsAwaited id p s e h q i f = elim (Bool-cases (p == q)) [
  | inl b ↦
      let v : id ≡ i = ground (arith, lookup-insert p q id s.starting) in
      subst (λ v. lookup v s.pending ≡ some q) v (ground (arith, ==_iff p q))
  | inr b ↦ h q i (ground (arith, lookup-insert p q id s.starting))
]

complete-IsAwaited :
    (id : Bytes) (p : ℕ) (ok : Bool) (s : Servers)
    → lookup id s.pending ≡ some p
    → IsAwaited s
    → IsAwaited (complete id p ok s)
unfolding complete
complete-IsAwaited id p ok s e h =
    if_rule IsAwaited (not ok) (λ _. others)
      (λ _. if_rule IsAwaited s.closed (λ _. others) (λ _. others))
  where
    others :
        (q : ℕ) (i : Bytes)
        → lookup q (delete p s.starting) ≡ some i
        → lookup i (delete id s.pending) ≡ some q
    others q i f = ground (
      arith,
      lookup-delete p q s.starting,
      lookup-delete id i s.pending,
      ==_iff p q,
      same_iff id i,
      ap (λ j. lookup j s.pending),
      h q i,
    )

Step-IsAwaited : {s s' : Servers} → IsAwaited s → Step s s' → IsAwaited s'
unfolding look close_all
Step-IsAwaited {s} h (Step.looks id) = looked-IsAwaited id (usable (lookup id s.conns) s) s h
Step-IsAwaited {s} h (Step.starts id p e) = start-IsAwaited id p s e h
Step-IsAwaited {s} h (Step.completes id p ok e started) = complete-IsAwaited id p ok s e h
Step-IsAwaited {s} h (Step.exits n) = h
Step-IsAwaited {s} h Step.closes = h

pub Runs-IsAwaited : {s s' : Servers} → IsAwaited s → Runs s s' → IsAwaited s'
Runs-IsAwaited h Runs.rest = h
Runs-IsAwaited h (Runs.moves r step) = Step-IsAwaited (Runs-IsAwaited h r) step

pub new_servers-IsAwaited : IsAwaited new_servers
unfolding new_servers lookup
new_servers-IsAwaited p id e = absurd (ground arith)
