-- ===== src/Progress/Delivery.antt =====
-- What `broadcast` of src/api/ws.py sends to one client among others, and what it leaves.
use extube.Prelude.{
  ℕ, zero, suc, ◌+◌, ◌==◌, ◌≡◌, String, Bool, true, false, Option, none, some, List, [], ◌∷◌, ◌++◌,
  map, keep, count, Bool-cases, inl, inr, arith, str_eq, eq_iff, refl, sym, ap, ◌∙◌, false≢true,
  if◌then◌else◌,
}
use extube.Prelude.Dict
use extube.Prelude.Dict.{get_or-put}
use extube.Progress.{
  Connection, Enriched, Manager, remove_first, remove_all, get_current_seq, record_event, drop_dead,
  broadcast,
}

-- What a connection is sent.
abbrev pub received : {A : Type 0} → Connection → List (Connection × Enriched A) → List (Enriched A)
received ws [] = []
received ws ((c, e) ∷ sent) = let rest = received ws sent in if c == ws then e ∷ rest else rest

abbrev pub conns : {A : Type 0} → String → Manager A → List Connection
conns job_id m = Dict.get_or [] job_id m.connections

abbrev pub times : Connection → List Connection → ℕ
times ws cs = count (λ c. c == ws) cs

-- The client watches one job, once.
pub record Watches {A : Type 0} (ws : Connection) (job_id : String) (m : Manager A) : Type 0 where
  pub here : times ws (conns job_id m) ≡ 1
  pub only : (other : String) → str_eq other job_id ≡ false → times ws (conns other m) ≡ 0

pub received-append :
    {A : Type 0} (ws : Connection) (xs ys : List (Connection × Enriched A))
    → received ws (xs ++ ys) ≡ received ws xs ++ received ws ys
received-append ws [] ys = refl
received-append ws ((c, e) ∷ xs) ys = elim (Bool-cases (c == ws)) [
  | inl hit ↦ rw hit (ap (e ∷◌) (received-append ws xs ys))
  | inr miss ↦ rw miss (received-append ws xs ys)
]

abbrev pub copies : {A : Type 0} → ℕ → A → List A
copies zero a = []
copies (suc n) a = a ∷ copies n a

pub received-sent :
    {A : Type 0} (ws : Connection) (e : Enriched A) (cs : List Connection)
    → received ws (map (λ c. (c, e)) cs) ≡ copies (times ws cs) e
received-sent ws e [] = refl
received-sent ws e (c ∷ cs) = elim (Bool-cases (c == ws)) [
  | inl hit ↦ rw hit (ap (e ∷◌) (received-sent ws e cs))
  | inr miss ↦ rw miss (received-sent ws e cs)
]

pub same_number : (m n : ℕ) → (m == n) ≡ true → m ≡ n
same_number m n h = ground arith

pub other_number : (m n k : ℕ) → (m == n) ≡ true → (n == k) ≡ false → (m == k) ≡ false
other_number m n k h g = ground arith

pub times-remove_first :
    (ws d : Connection) (cs : List Connection)
    → (d == ws) ≡ false
    → times ws (remove_first d cs) ≡ times ws cs
unfolding remove_first
times-remove_first ws d [] h = refl
times-remove_first ws d (c ∷ cs) h = elim (Bool-cases (c == d)) [
  | inl hit ↦ rw (hit, other_number c d ws hit h) refl
  | inr miss ↦ rw miss (ap (λ n. if c == ws then suc n else n) (times-remove_first ws d cs h))
]

pub times-remove_all :
    (ws : Connection) (dead cs : List Connection)
    → times ws dead ≡ 0
    → times ws (remove_all dead cs) ≡ times ws cs
unfolding remove_all
times-remove_all ws [] cs h = refl
times-remove_all ws (d ∷ dead) cs h = elim (Bool-cases (d == ws)) [
  | inl hit ↦ absurd (positive (times ws dead) (rw hit at h))
  | inr miss ↦
      times-remove_all ws dead (remove_first d cs) (rw miss at h) ∙ times-remove_first ws d cs miss
]
  where
    positive : (n : ℕ) → suc n ≡ 0 → ⊥
    positive n h = omega (arith, h)

pub times-drop_dead :
    {A : Type 0} (ws : Connection) (k j : String) (dead : List Connection) (m : Manager A)
    → times ws dead ≡ 0
    → times ws (conns j (drop_dead k dead m)) ≡ times ws (conns j m)
unfolding drop_dead Dict.get_or
times-drop_dead {A = A} ws k j dead m h = of_get (Dict.get k m.connections) refl
  where
    placed :
        (cs : List Connection) (o : Option (List Connection))
        → o ≡ some cs
        → times ws (remove_all dead cs) ≡ times ws (elim o [ none ↦ [] | some v ↦ v ])
    placed cs o e = rw e (times-remove_all ws dead cs h)

    of_get :
        (o : Option (List Connection))
        → Dict.get k m.connections ≡ o
        → times ws (
            conns j (elim o as (λ _. Manager A) [
              | none ↦ m
              | some cs ↦ record m { connections = Dict.put k (remove_all dead cs) m.connections }
            ]))
          ≡ times ws (conns j m)
    of_get none e = refl
    of_get (some cs) e = elim (Bool-cases (str_eq k j)) [
      | inl hit ↦
          let kj : k ≡ j = (eq_iff k j).0 hit in
          ap (times ws) (get_or-put [] k j (remove_all dead cs) m.connections ∙ rw hit refl)
          ∙ placed cs (Dict.get j m.connections) (ap (λ i. Dict.get i m.connections) (sym kj) ∙ e)
      | inr miss ↦
          ap (times ws) (get_or-put [] k j (remove_all dead cs) m.connections ∙ rw miss refl)
    ]

pub drop_dead-seqs :
    {A : Type 0} (k : String) (dead : List Connection) (m : Manager A)
    → (drop_dead k dead m).seqs ≡ m.seqs
unfolding drop_dead
drop_dead-seqs {A = A} k dead m = of_get (Dict.get k m.connections)
  where
    of_get :
        (o : Option (List Connection))
        → (elim o as (λ _. Manager A) [
          | none ↦ m
          | some cs ↦ record m { connections = Dict.put k (remove_all dead cs) m.connections }
        ]).seqs
          ≡ m.seqs
    of_get none = refl
    of_get (some cs) = refl

module _ (ws : Connection) (alive : Connection → Bool) (lives : alive ws ≡ true) where
  pub times-alive : (cs : List Connection) → times ws (keep alive cs) ≡ times ws cs
  times-alive [] = refl
  times-alive (c ∷ cs) = elim (Bool-cases (c == ws)) [
    | inl hit ↦ rw (ap alive (same_number c ws hit) ∙ lives, hit) (ap suc (times-alive cs))
    | inr miss ↦ elim (Bool-cases (alive c)) [
      | inl kept ↦ rw (kept, miss) (times-alive cs)
      | inr dropped ↦ rw (dropped, miss) (times-alive cs)
    ]
  ]

  pub times-dead :
      (cs : List Connection) → times ws (keep (λ c. if alive c then false else true) cs) ≡ 0
  times-dead [] = refl
  times-dead (c ∷ cs) = elim (Bool-cases (alive c)) [
    | inl kept ↦ rw kept (times-dead cs)
    | inr dropped ↦ elim (Bool-cases (c == ws)) [
      | inl hit ↦ absurd (false≢true (sym dropped ∙ ap alive (same_number c ws hit) ∙ lives))
      | inr miss ↦ rw (dropped, miss) (times-dead cs)
    ]
  ]

  module _ {A : Type 0} (k : String) (payload : A) (now : ℕ) (m : Manager A) where
    abbrev pub numbered : Enriched A
    numbered = record { payload = payload; seq = get_current_seq k m + 1; timestamp = now }

    pub broadcast-times :
        (j : String) → times ws (conns j (broadcast k payload now alive m).0) ≡ times ws (conns j m)
    unfolding broadcast record_event
    broadcast-times j =
        times-drop_dead ws k j _ (record_event k payload now m).0 (times-dead (conns k m))

    pub broadcast-received :
        received ws (broadcast k payload now alive m).1 ≡ copies (times ws (conns k m)) numbered
    unfolding broadcast record_event
    broadcast-received =
        received-sent ws numbered (keep alive (conns k m))
        ∙ ap (λ n. copies n numbered) (times-alive (conns k m))

    pub broadcast-seq :
        (j : String)
        → get_current_seq j (broadcast k payload now alive m).0
          ≡ (if str_eq k j then get_current_seq k m + 1 else get_current_seq j m)
    unfolding broadcast record_event get_current_seq
    broadcast-seq j =
        ap (Dict.get_or 0 j) (
          drop_dead-seqs k (keep (λ c. if alive c then false else true) (conns k m))
            (record_event k payload now m).0)
        ∙ get_or-put 0 k j (get_current_seq k m + 1) m.seqs
