-- ===== src/ToolLoop/Repeats.antt =====
-- How often the tool loop runs a call that the model repeats.
use invarail.Prelude.{
  ℕ, zero, suc, ◌+◌, ◌-◌, ◌*◌, ◌≤◌, ◌≡◌, refl, Bool, true, false, List, [], ◌∷◌, ◌++◌, Text, ◌==◌,
  eq_refl, leb, length, length-append, is_empty, arith, if◌then◌else◌,
}
use invarail.ToolLoop.Calls.{
  Call, Loop, Env, execute, block, action_hash, run_valid, run_call, run_calls, unwrap, narrate,
}

abbrev pub replicate : {A : Type 0} → ℕ → A → List A
replicate zero x = []
replicate (suc n) x = x ∷ replicate n x

-- How often the call of this hash may still run before it is blocked.
abbrev left : Text → Loop → ℕ
left hash s = if hash == s.last_action_hash then 1 - s.action_repeats else 2

-- Thrice the calls that have run, and what is left.
abbrev score : Text → Loop → ℕ
score hash s = 3 * length s.executed + left hash s

not_leb : (a b : ℕ) → leb a b ≡ false → suc b ≤ a
not_leb a b h = ground arith

hash_given : (name rest : Text) → (name ++ b':' ∷ rest == []) ≡ false
unfolding ◌==◌
hash_given [] rest = refl
hash_given (c ∷ name) rest = refl

left_same :
    (hash : Text) (s : Loop)
    → (hash == s.last_action_hash) ≡ true
    → left hash s ≡ 1 - s.action_repeats
left_same hash s e = ground arith

left_other : (hash : Text) (s : Loop) → (hash == s.last_action_hash) ≡ false → left hash s ≡ 2
left_other hash s e = ground arith

if_score :
    (hash : Text) (n : ℕ) (b : Bool) (x y : Loop)
    → (b ≡ true → score hash x ≤ n)
    → (b ≡ false → score hash y ≤ n)
    → score hash (if b then x else y) ≤ n
if_score hash n true x y h k = h refl
if_score hash n false x y h k = k refl

module _ (env : Env) (i : ℕ) (thought : Text) where
  execute-score :
      (hash : Text) (c : Call) (s : Loop)
      → score hash (execute env i thought c s) ≡ 3 + score hash s
  unfolding execute
  execute-score hash c s = omega (arith, length-append s.executed (c ∷ []))

  block-score :
      (c : Call) (n : ℕ) (s : Loop)
      → score (action_hash env c) (block env c n s) ≡ 3 * length s.executed + 2
  unfolding action_hash
  block-score c n s =
      let hash = action_hash env c in
      omega (arith, left_other hash (block env c n s) (hash_given c.name (env.stringify c.params)))

  run_valid-score :
      (c : Call) (s : Loop)
      → score (action_hash env c) (run_valid env i thought c s) ≤ score (action_hash env c) s + 2
  unfolding run_valid
  run_valid-score c s =
      let hash = action_hash env c in
      let n = score hash s + 2 in
      let repeats = suc s.action_repeats in
      let once_more : Loop = record s { action_repeats = repeats } in
      let fresh : Loop = record s { last_action_hash = hash; action_repeats = 0 } in
      let blocked = block env c repeats s in
      if_score hash n (hash == s.last_action_hash)
        (if leb 2 repeats then blocked else execute env i thought c once_more)
        (execute env i thought c fresh)
        (λ same.
          if_score hash n (leb 2 repeats) blocked (execute env i thought c once_more)
            (λ _. omega (arith, block-score c repeats s))
            λ few. omega (
              arith,
              execute-score hash c once_more,
              left_same hash s same,
              left_same hash once_more same,
              not_leb 2 repeats few,
            ))
        λ other. omega (
          arith,
          execute-score hash c fresh,
          left_other hash s other,
          left_same hash fresh (eq_refl hash),
        )

  -- The call as it is executed.
  abbrev checked : Call → Call
  checked c = record { name = (unwrap c).name; params = (env.validate_params (unwrap c)).0 }

  narrate-score : (hash name : Text) (s : Loop) → score hash (narrate name s) ≡ score hash s
  unfolding narrate
  narrate-score hash name s = ground arith

  run_call-score :
      (c : Call) (s : Loop)
      → is_empty (env.validate_params (unwrap c)).1 ≡ true
      → score (action_hash env (checked c)) (run_call env i thought c s)
        ≤ score (action_hash env (checked c)) s + 2
  unfolding run_call
  run_call-score c s valid =
      let hash = action_hash env (checked c) in
      let told = narrate (unwrap c).name s in
      if_score hash (score hash s + 2) (is_empty (env.validate_params (unwrap c)).1) _ _
        (λ _. omega (arith, run_valid-score (checked c) told, narrate-score hash (unwrap c).name s))
        λ e. absurd (ground arith)

  repeated-score :
      (c : Call) (n : ℕ) (s : Loop)
      → is_empty (env.validate_params (unwrap c)).1 ≡ true
      → score (action_hash env (checked c)) (run_calls env i thought (replicate n c) s)
        ≤ score (action_hash env (checked c)) s + 2 * n
  unfolding run_calls
  repeated-score c zero s valid = omega arith
  repeated-score c (suc n) s valid =
      omega (arith, repeated-score c n (run_call env i thought c s) valid, run_call-score c s valid)

  left_le : (hash : Text) (s : Loop) → left hash s ≤ 2
  left_le hash s = ground arith

-- However often a reply repeats one call whose parameters are valid, the calls that reach the
-- executor are at most two thirds of the repetitions and two thirds of a call more.
pub run_calls_repeated :
    (env : Env) (i : ℕ) (thought : Text) (c : Call) (n : ℕ) (s : Loop)
    → is_empty (env.validate_params (unwrap c)).1 ≡ true
    → 3 * length (run_calls env i thought (replicate n c) s).executed
      ≤ 3 * length s.executed + 2 * n + 2
run_calls_repeated env i thought c n s valid = omega (
  arith,
  repeated-score env i thought c n s valid,
  left_le env i thought (action_hash env (checked env i thought c)) s,
)
