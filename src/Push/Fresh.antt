-- ===== src/Push/Fresh.antt =====
-- What the clients of the push server have been given.
use r60v_home_assistant.Base.{
  ℕ, ◌≡◌, refl, ap, sym, ◌∙◌, ◌⊎◌, inl, inr, true, false, Bool-cases, some, List, [], ◌∷◌, ◌++◌,
  arith, ◌==◌, if◌then◌else◌,
}
use r60v_home_assistant.Base.Dict
use r60v_home_assistant.Base.Dict.{get-put}
use r60v_home_assistant.Push.{
  State, Wrapped, wrap, WsPushServer, init, has, add, discard, discard_all, join, leave,
  send_to_all, begin, sent, failed, finish, Step, joins, leaves, begins, sends, gives_up, finishes,
  Reachable, created, next,
}

has-append : (x y : ℕ) (ys : List ℕ) → has x (ys ++ y ∷ []) ≡ (if y == x then true else has x ys)
unfolding has
has-append x y [] = refl
has-append x y (z ∷ ys) = ground (arith, has-append x y ys)

has-discard : (x y : ℕ) (ys : List ℕ) → has x (discard y ys) ≡ (if y == x then false else has x ys)
unfolding has discard
has-discard x y [] = ground arith
has-discard x y (z ∷ ys) = ground (arith, has-discard x y ys)

has-discard_all :
    (x : ℕ) (ds ys : List ℕ) → has x (discard_all ds ys) ≡ (if has x ds then false else has x ys)
unfolding has discard_all
has-discard_all x [] ys = refl
has-discard_all x (d ∷ ds) ys =
    ground (arith, has-discard_all x ds (discard d ys), has-discard x d ys)

has-add : (x y : ℕ) (ys : List ℕ) → has x (add y ys) ≡ (if y == x then true else has x ys)
unfolding add
has-add x y ys = ground (arith, has-append x y ys)

-- The client's socket was given the latest message last.
abbrev IsFresh : ℕ → WsPushServer → Type 0
IsFresh client s = Dict.get client s.handed ≡ some s.latest

-- Every client is fresh, or the running broadcast still has to send to it, or is to drop it.
record Inv (s : WsPushServer) : Type 0 where
  served :
      (c : ℕ)
      → has c s.clients ≡ true
      → (has c s.waiting ≡ true) ⊎ ((has c s.dead ≡ true) ⊎ IsFresh c s)
  same : (c : ℕ) → has c s.waiting ≡ true → s.msg ≡ s.latest
  unlocked : s.locked ≡ false → (s.waiting ≡ []) × (s.dead ≡ [])

handed_self :
    (c d : ℕ) (v : Wrapped) (h : Dict.Dict Wrapped)
    → (c == d) ≡ true
    → Dict.get d (Dict.put c v h) ≡ some v
handed_self c d v h e = get-put c d v h ∙ rw e refl

handed_other :
    (c d : ℕ) (v : Wrapped) (h : Dict.Dict Wrapped)
    → (c == d) ≡ false
    → Dict.get d (Dict.put c v h) ≡ Dict.get d h
handed_other c d v h e = get-put c d v h ∙ rw e refl

none_waits {ℓ} : {A : Type ℓ} (c : ℕ) (ys : List ℕ) → ys ≡ [] → has c ys ≡ true → A
none_waits c ys e h =
    absurd (let k : has c [] ≡ false = (unfold has in refl) in let m = ap (has c) e in cc)

init-Inv : (now : ℕ) → Inv (init now)
unfolding init
init-Inv now = record {
  served = λ c h. none_waits c [] refl h;
  same = λ c h. refl;
  unlocked = λ _. (refl, refl);
}

join-Inv : (client : ℕ) (s : WsPushServer) → Inv s → Inv (join client s)
unfolding join
join-Inv client s inv = record {
  served = λ c h. elim (Bool-cases (client == c)) [
    | inl it ↦ inr (inr (handed_self client c s.latest s.handed it))
    | inr other ↦ elim (inv.served c (ground (arith, has-add c client s.clients))) [
      | inl waits ↦ inl waits
      | inr (inl dead) ↦ inr (inl dead)
      | inr (inr fresh) ↦ inr (inr (handed_other client c s.latest s.handed other ∙ fresh))
    ]
  ];
  same = inv.same;
  unlocked = inv.unlocked;
}

leave-Inv : (client : ℕ) (s : WsPushServer) → Inv s → Inv (leave client s)
unfolding leave
leave-Inv client s inv = record {
  served = λ c h. inv.served c (ground (arith, has-discard c client s.clients));
  same = inv.same;
  unlocked = inv.unlocked;
}

send_to_all-Inv :
    (cs : List ℕ) (s : WsPushServer)
    → s.clients ≡ cs
    → s.waiting ≡ []
    → s.dead ≡ []
    → Inv (send_to_all cs s)
unfolding send_to_all
send_to_all-Inv [] s all free clear = record {
  served = λ c h. none_waits c s.clients all h;
  same = λ c h. none_waits c s.waiting free h;
  unlocked = λ _. (free, clear);
}
send_to_all-Inv (d ∷ ds) s all free clear = record {
  served = λ c h. inl (ap (has c) (sym all) ∙ h);
  same = λ c h. refl;
  unlocked = λ e. cc;
}

begin-Inv :
    (now : ℕ) (state : State) (s : WsPushServer)
    → s.locked ≡ false
    → Inv s
    → Inv (begin now state s)
unfolding begin
begin-Inv now state s idle inv =
    let (free, clear) = inv.unlocked idle in
    send_to_all-Inv s.clients (record s { latest = wrap now state }) refl free clear

sent-Inv :
    (client : ℕ) (s : WsPushServer) → has client s.waiting ≡ true → Inv s → Inv (sent client s)
unfolding sent
sent-Inv client s waits inv = record {
  served = λ c h. elim (Bool-cases (client == c)) [
    | inl it ↦ inr (inr (handed_self client c s.msg s.handed it ∙ ap some (inv.same client waits)))
    | inr other ↦ elim (inv.served c h) [
      | inl waits' ↦ inl (ground (arith, has-discard c client s.waiting))
      | inr (inl dead) ↦ inr (inl dead)
      | inr (inr fresh) ↦ inr (inr (handed_other client c s.msg s.handed other ∙ fresh))
    ]
  ];
  same = λ c h. inv.same c (ground (arith, has-discard c client s.waiting));
  unlocked = λ e. none_waits client s.waiting (inv.unlocked e).0 waits;
}

failed-Inv :
    (client : ℕ) (s : WsPushServer) → has client s.waiting ≡ true → Inv s → Inv (failed client s)
unfolding failed
failed-Inv client s waits inv = record {
  served = λ c h. elim (Bool-cases (client == c)) [
    | inl it ↦ inr (inl (ground (arith, has-append c client s.dead)))
    | inr other ↦ elim (inv.served c h) [
      | inl waits' ↦ inl (ground (arith, has-discard c client s.waiting))
      | inr (inl dead) ↦ inr (inl (ground (arith, has-append c client s.dead)))
      | inr (inr fresh) ↦ inr (inr fresh)
    ]
  ];
  same = λ c h. inv.same c (ground (arith, has-discard c client s.waiting));
  unlocked = λ e. none_waits client s.waiting (inv.unlocked e).0 waits;
}

finish-Inv : (s : WsPushServer) → s.waiting ≡ [] → Inv s → Inv (finish s)
unfolding finish
finish-Inv s free inv = record {
  served = λ c h.
      let k = has-discard_all c s.dead s.clients in
      elim (inv.served c (ground (arith, k))) [
        | inl waits ↦ none_waits c s.waiting free waits
        | inr (inl dead) ↦ absurd (ground (arith, k))
        | inr (inr fresh) ↦ inr (inr fresh)
      ];
  same = λ c h. none_waits c s.waiting free h;
  unlocked = λ _. (free, refl);
}

Step-Inv : {s t : WsPushServer} → Step s t → Inv s → Inv t
Step-Inv (joins c s) inv = join-Inv c s inv
Step-Inv (leaves c s) inv = leave-Inv c s inv
Step-Inv (begins now state s idle) inv = begin-Inv now state s idle inv
Step-Inv (sends c s waits) inv = sent-Inv c s waits inv
Step-Inv (gives_up c s waits) inv = failed-Inv c s waits inv
Step-Inv (finishes s locked free) inv = finish-Inv s free inv

Reachable-Inv : {now : ℕ} {s : WsPushServer} → Reachable now s → Inv s
Reachable-Inv created = init-Inv _
Reachable-Inv (next r step) = Step-Inv step (Reachable-Inv r)

-- However clients come and go, and in whatever order the sends of the broadcasts end or fail, as
-- long as no broadcast runs the last message that each client in the set was given is the latest.
pub clients-IsFresh :
    (now : ℕ) (s : WsPushServer) (client : ℕ)
    → Reachable now s
    → s.locked ≡ false
    → has client s.clients ≡ true
    → Dict.get client s.handed ≡ some s.latest
clients-IsFresh now s client r idle h =
    let inv = Reachable-Inv r in
    let (free, clear) = inv.unlocked idle in
    elim (inv.served client h) [
      | inl waits ↦ none_waits client s.waiting free waits
      | inr (inl dead) ↦ none_waits client s.dead clear dead
      | inr (inr fresh) ↦ fresh
    ]
