-- ===== src/Sync/Manager/Marks.antt =====
-- What a push leaves in the registry, and a pull in the chain file (sync/sync-manager.ts).
use memphis_v.Base.{
  ◌+◌, ◌≡◌, refl, sym, ◌∙◌, Text, false, Option, none, List, [], ◌∷◌, ◌++◌, length, map, arith, inl,
  inr, Bool-cases, Option-cases,
}
use memphis_v.Base.Lists.{append_assoc}
use memphis_v.Base.Texts.{text_eq, text_eq_iff}
use memphis_v.Sync.Manager.{
  Agent, get_agent, put_agent, upsert, with_status, status_after, push_all, push,
}

-- No two agents have one identity.
abbrev pub Distinct : List Agent → Type 0
Distinct [] = Unit {0}
Distinct (a ∷ more) = (get_agent a.did more ≡ none) × Distinct more

abbrev pub marked : (Agent → Option Text) → Agent → Agent
marked answer a = record a { status = status_after (answer a) }

-- The identity is not among the agents.
abbrev Absent : Text → List Agent → Type 0
Absent did [] = Unit {0}
Absent did (a ∷ more) = (text_eq a.did did ≡ false) × Absent did more

absent : (did : Text) (more : List Agent) → get_agent did more ≡ none → Absent did more
unfolding get_agent
absent did [] h = tt
absent did (a ∷ more) h = elim (Bool-cases (text_eq a.did did)) [
  | inl e ↦ absurd (ground (arith, h, e))
  | inr e ↦ (e, absent did more (rw e at (h)))
]

put_behind :
    (a b : Agent) (front rest : List Agent)
    → Absent a.did front
    → b.did ≡ a.did
    → put_agent b (front ++ a ∷ rest) ≡ front ++ b ∷ rest
unfolding put_agent
put_behind a b [] rest h e = rw ((text_eq_iff a.did b.did).1 (sym e)) refl
put_behind a b (c ∷ front) rest h e =
    let apart : text_eq c.did b.did ≡ false = rw e h.0 in
    rw (apart, put_behind a b front rest h.1 e) refl

Absent-snoc :
    (did : Text) (front : List Agent) (a : Agent)
    → Absent did front
    → text_eq a.did did ≡ false
    → Absent did (front ++ a ∷ [])
Absent-snoc did [] a h e = (e, tt)
Absent-snoc did (b ∷ front) a h e = (h.0, Absent-snoc did front a h.1 e)

-- Every agent that is still to come is absent among those done.
abbrev AllAbsent : List Agent → List Agent → Type 0
AllAbsent [] front = Unit {0}
AllAbsent (a ∷ more) front = Absent a.did front × AllAbsent more front

apart_flip : (s t : Text) → text_eq s t ≡ false → text_eq t s ≡ false
apart_flip s t h = elim (Bool-cases (text_eq t s)) [
  | inr e ↦ e
  | inl e ↦
      let same : s ≡ t = sym ((text_eq_iff t s).0 e) in
      let own = (text_eq_iff s t).1 same in absurd (ground (arith, own, h))
]

AllAbsent-snoc :
    (more front : List Agent) (a : Agent)
    → AllAbsent more front
    → Absent a.did more
    → AllAbsent more (front ++ a ∷ [])
AllAbsent-snoc [] front a h k = tt
AllAbsent-snoc (b ∷ more) front a h k = (
  Absent-snoc b.did front a h.0 (apart_flip b.did a.did k.0),
  AllAbsent-snoc more front a h.1 k.1,
)

push_all-marks :
    (now : Text) (answer : Agent → Option Text) (more front : List Agent)
    → Distinct more
    → AllAbsent more front
    → (push_all now answer more (front ++ more)).1 ≡ front ++ map (marked answer) more
unfolding push_all upsert
push_all-marks now answer [] front d h = refl
push_all-marks now answer (a ∷ more) front d h =
    let put = put_behind a (marked answer a) front more h.0 refl in
    rw (put, sym (append_assoc front (marked answer a ∷ []) more))
      (push_all-marks now answer more (front ++ marked answer a ∷ []) d.1
          (AllAbsent-snoc more front (marked answer a) h.1 (absent a.did more d.0))
        ∙ append_assoc front (marked answer a ∷ []) (map (marked answer) more))

nothing_done : (l : List Agent) → AllAbsent l []
nothing_done [] = tt
nothing_done (a ∷ l) = (tt, nothing_done l)

counted :
    (now : Text) (answer : Agent → Option Text) (l registry : List Agent)
    → (push_all now answer l registry).0.pushed_to
        + length (push_all now answer l registry).0.failures
      ≡ length l
unfolding push_all
counted now answer [] registry = refl
counted now answer (a ∷ l) registry =
    let rest =
      counted now answer l (upsert now (with_status (status_after (answer a)) a) registry) in
    elim (Option-cases (answer a)) [
      | inl e ↦ rw e (omega (arith, rw e at (rest)))
      | inr (x, e) ↦ rw e (omega (arith, rw e at (rest)))
    ]

-- `push` asks every known agent once, and its counts of successes and failures add up to them. Every
-- agent is online afterwards if it answered and offline if not, and nothing else of it changes: the
-- time at which it was last seen stays what it was. It is assumed that no two agents have one
-- identity.
pub push_marks :
    (now : Text) (answer : Agent → Option Text) (registry : List Agent)
    → Distinct registry
    → ((push now answer registry).1 ≡ map (marked answer) registry)
      × ((push now answer registry).0.pushed_to + length (push now answer registry).0.failures
          ≡ length registry)
unfolding push
push_marks now answer registry d = (
  push_all-marks now answer registry [] d (nothing_done registry),
  counted now answer registry registry,
)
