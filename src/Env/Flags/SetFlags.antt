-- ===== src/Env/Flags/SetFlags.antt =====
-- What the setter of Env.flags leaves in force, and which calls it makes.
use Prim.Native.Nat.{bit_and}
use kotlin_lmdb.Common.{
  ℕ, Bool, true, false, not, ◌&&◌, ◌||◌, ◌==◌, List, [], ◌∷◌, ℤ, pos, ◌≡◌, ◌≢◌, refl, arith, ap,
  ap₂, ◌∙◌, if◌then◌else◌,
}
use kotlin_lmdb.Checks.{Result, ok, thrown, check}
use kotlin_lmdb.Options.{EnvOption, env_option, env_values, env_test}
use kotlin_lmdb.Env.Flags.{
  NativeEnv, member, filter, minus, flags, set_each, change_flags, set_flags_of,
}

-- The two options are one.
abbrev pub same : EnvOption → EnvOption → Bool
same o p = env_option o == env_option p

-- What LMDB documents: `on` tells which options are in force, and mdb_env_set_flags turns one that
-- may be changed on or off and leaves the others.
pub record IsEnvFlags {S : Type 0} (n : NativeEnv S) (on : S → EnvOption → Bool)
    (changeable : EnvOption → Bool) : Type 0 where
  pub get_eq :
      (s : S) → (v : ℕ) × (n.get_flags s ≡ (pos 0, v)) × ((o : EnvOption) → env_test v o ≡ on s o)
  pub set_on :
      (s : S) (o : EnvOption)
      → changeable o ≡ true
      → (s' : S) × (n.set_flags s (env_option o) 1 ≡ (pos 0, s'))
        × ((p : EnvOption) → on s' p ≡ same o p || on s p)
  pub set_off :
      (s : S) (o : EnvOption)
      → changeable o ≡ true
      → (s' : S) × (n.set_flags s (env_option o) 0 ≡ (pos 0, s'))
        × ((p : EnvOption) → on s' p ≡ not (same o p) && on s p)

member_self : (o : EnvOption) (os : List EnvOption) → member o (o ∷ os) ≡ true
member_self o os = ground arith

member-tail :
    (o p : EnvOption) (os : List EnvOption) → member p os ≡ true → member p (o ∷ os) ≡ true
member-tail o p os e = ground arith

member-same :
    (o p : EnvOption) (os : List EnvOption)
    → env_option o ≡ env_option p
    → member o os ≡ member p os
member-same o p [] e = refl
member-same o p (q ∷ os) e =
    ap₂ (λ x y. x || y) (ap (λ b. env_option q == b) e) (member-same o p os e)

member-if :
    (o p : EnvOption) (t : Bool) (os : List EnvOption)
    → member p (if t then o ∷ os else os) ≡ (t && same o p) || member p os
member-if o p true os = refl
member-if o p false os = refl

filter_bits :
    (x y : ℕ) (fo fp m : Bool)
    → (x ≡ y → fo ≡ fp)
    → (fo && (x == y)) || (m && fp) ≡ ((x == y) || m) && fp
filter_bits x y fo fp m h = ground arith

-- For a test that looks at the bits only.
pub member-filter :
    (f : EnvOption → Bool) (os : List EnvOption) (p : EnvOption)
    → ((o : EnvOption) → env_option o ≡ env_option p → f o ≡ f p)
    → member p (filter f os) ≡ member p os && f p
unfolding filter
member-filter f [] p h = refl
member-filter f (o ∷ os) p h =
    member-if o p (f o) (filter f os)
    ∙ ap (λ b. (f o && same o p) || b) (member-filter f os p h)
    ∙ filter_bits (env_option o) (env_option p) (f o) (f p) (member p os) (h o)

pub all_members : (o : EnvOption) → member o env_values ≡ true
all_members EnvOption.fixed_map = refl
all_members _ = refl

member-minus :
    (os value : List EnvOption) (p : EnvOption)
    → member p (minus os value) ≡ member p os && not (member p value)
member-minus os value p =
    member-filter (λ o. not (member o value)) os p (λ o e. ap not (member-same o p value e))

member-current : (v : ℕ) (p : EnvOption) → member p (filter (env_test v) env_values) ≡ env_test v p
member-current v p =
    member-filter (env_test v) env_values p (λ o e. ap (λ b. bit_and v b == b) e)
    ∙ ap (λ b. b && env_test v p) (all_members p)

off_both : (a b x : Bool) → not b && (not a && x) ≡ not (a || b) && x
off_both a b x = ground arith

on_both : (a b x : Bool) → b || (a || x) ≡ (a || b) || x
on_both a b x = ground arith

-- An option that a loop visits is in force exactly where the value lacks it.
differs_off : (cur is val m : Bool) → cur ≡ is → m ≡ cur && not val → m ≡ true → is ≢ val
differs_off cur is val m e f h k = ground arith

differs_on : (cur is val m : Bool) → cur ≡ is → m ≡ val && not cur → m ≡ true → is ≢ val
differs_on cur is val m e f h k = ground arith

in_force :
    (cur is is' is'' val off add : Bool)
    → cur ≡ is
    → off ≡ cur && not val
    → add ≡ val && not cur
    → is' ≡ not off && is
    → is'' ≡ add || is'
    → is'' ≡ val
in_force cur is is' is'' val off add e f g h k = ground arith

module _ {S : Type 0} (n : NativeEnv S) (on : S → EnvOption → Bool)
    (changeable : EnvOption → Bool) where
  -- One loop, whose calls each do `effect`.
  module _ (onoff : ℕ) (effect : Bool → Bool → Bool) (none : (x : Bool) → x ≡ effect false x)
      (both : (a b x : Bool) → effect b (effect a x) ≡ effect (a || b) x)
      (one : (s : S) (o : EnvOption)
        → changeable o ≡ true
        → (s' : S) × (n.set_flags s (env_option o) onoff ≡ (pos 0, s'))
          × ((p : EnvOption) → on s' p ≡ effect (same o p) (on s p))) where
    set_each_lem :
        (os : List EnvOption) (s : S)
        → ((o : EnvOption) → member o os ≡ true → changeable o ≡ true)
        → (s' : S) × (set_each n onoff os s ≡ (ok tt, s'))
          × ((p : EnvOption) → on s' p ≡ effect (member p os) (on s p))
    unfolding set_each check
    set_each_lem [] s h = (s, refl, λ p. none (on s p))
    set_each_lem (o ∷ os) s h =
        let (s', e, f) = one s o (h o (member_self o os)) in
        let (s'', e', f') = set_each_lem os s' (λ p m. h p (member-tail o p os m)) in
        (
          s'',
          ap
                (λ (q : ℤ × S).
                  (let r : Result (Unit {0}) × S = elim (check q.0) [
                    | thrown x ↦ (thrown x, q.1)
                    | ok r ↦ set_each n onoff os q.1
                  ] in
                    r))
                e
              ∙ e',
          λ p. f' p ∙ ap (effect (member p os)) (f p) ∙ both (same o p) (member p os) (on s p),
        )

  flags_lem :
      (s : S) (v : ℕ) → n.get_flags s ≡ (pos 0, v) → flags n s ≡ ok (filter (env_test v) env_values)
  unfolding flags check
  flags_lem s v e =
      ap
        (λ (q : ℤ × ℕ).
          (let r : Result (List EnvOption) = elim (check q.0) [
            | thrown x ↦ thrown x
            | ok r ↦ ok (filter (env_test q.1) env_values)
          ] in
            r))
        e

  change_flags_lem :
      (current value : List EnvOption) (s s' s'' : S)
      → set_each n 0 (minus current value) s ≡ (ok tt, s')
      → set_each n 1 (minus value current) s' ≡ (ok tt, s'')
      → change_flags n current value s ≡ (ok tt, s'')
  unfolding change_flags
  change_flags_lem current value s s' s'' e e' =
      ap
        (λ (q : Result (Unit {0}) × S).
          (let r : Result (Unit {0}) × S = elim q.0 [
            | thrown x ↦ (thrown x, q.1)
            | ok u ↦ set_each n 1 (minus value current) q.1
          ] in
            r))
        e
      ∙ e'

  set_flags_of_lem :
      (current value : List EnvOption) (s : S)
      → flags n s ≡ ok current
      → set_flags_of n s value ≡ change_flags n current value s
  unfolding set_flags_of
  set_flags_of_lem current value s e =
      ap
        (λ (q : Result (List EnvOption)).
          (let r : Result (Unit {0}) × S = elim q [
            | thrown x ↦ (thrown x, s)
            | ok current ↦ change_flags n current value s
          ] in
            r))
        e

  -- If the environment's flags behave as documented, and every option that is to change may be
  -- changed, the setter returns and leaves exactly the options of the value in force.
  pub set_flags_of-on :
      (value : List EnvOption) (s : S)
      → IsEnvFlags n on changeable
      → ((o : EnvOption) → on s o ≢ member o value → changeable o ≡ true)
      → (s' : S) × (set_flags_of n s value ≡ (ok tt, s'))
        × ((o : EnvOption) → on s' o ≡ member o value)
  set_flags_of-on value s w free =
      let (v, got, test) = w.get_eq s in
      let current = filter (env_test v) env_values in
      let now : (p : EnvOption) → member p current ≡ on s p = λ p. member-current v p ∙ test p in
      let (s', e, f) =
        set_each_lem 0 (λ b x. not b && x) (λ x. refl) off_both w.set_off (minus current value) s
          (λ o m. free o (differs_off _ _ _ _ (now o) (member-minus current value o) m)) in
      let (s'', e', f') =
        set_each_lem 1 (λ b x. b || x) (λ x. refl) on_both w.set_on (minus value current) s'
          (λ o m. free o (differs_on _ _ _ _ (now o) (member-minus value current o) m)) in
      (
        s'',
        set_flags_of_lem current value s (flags_lem s v got)
            ∙ change_flags_lem current value s s' s'' e e',
        λ o.
            in_force _ _ _ _ _ _ _ (now o) (member-minus current value o)
              (member-minus value current o) (f o) (f' o),
      )
