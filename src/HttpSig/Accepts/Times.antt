-- ===== src/HttpSig/Accepts/Times.antt =====
-- `check_times` decides the plain arithmetic of freshness for a 64-bit clock and 64-bit times.
use wimsey.Common.{
  ℕ, ◌+◌, ◌-◌, ◌≤◌, ◌≡◌, ◌↔◌, inl, inr, refl, subst, true, not, ◌&&◌, Option, none, some, ok, arith,
  Option-cases, ensure-eq-ok, is_some, is_none, leb, saturating_add, u64_max,
}
use wimsey.HttpSig.Params.{SignatureParams}
use wimsey.HttpSig.Signature.{
  VerifyConfig, check_times, check_now, check_age, check_created, check_expires, in_order,
}
use wimsey.HttpSig.Accepts.{IsPresent, IsFresh, IsU64}

leb_iff : (a b : ℕ) → (leb a b ≡ true) ↔ (a ≤ b)
leb_iff a b = ground arith

-- A bound that saturates is the true bound for a 64-bit number.
leb-saturating_add_iff :
    (n a b : ℕ) → n ≤ u64_max → (leb n (saturating_add a b) ≡ true) ↔ (n ≤ a + b)
leb-saturating_add_iff n a b h = ground arith

in_order_iff :
    (created expires : Option ℕ)
    → (in_order created expires ≡ true) ↔ ((c e : ℕ) → created ≡ some c → expires ≡ some e → c ≤ e)
in_order_iff none expires = (λ h c e eq. cc, λ h. refl)
in_order_iff (some c) none = (λ h c' e eq eq'. cc, λ h. refl)
in_order_iff (some c) (some e) = (
  λ h c' e' eq eq'.
      let same : c ≡ c' = cc in let same' : e ≡ e' = cc in rw (← same, ← same') ((leb_iff c e).0 h),
  λ h. (leb_iff c e).1 (h c e refl refl),
)

check_expires_iff :
    (n leeway : ℕ) (expires : Option ℕ)
    → n ≤ u64_max
    → (check_expires n leeway expires ≡ ok tt) ↔ ((e : ℕ) → expires ≡ some e → n ≤ e + leeway)
check_expires_iff n leeway none small = (λ h e eq. cc, λ h. refl)
check_expires_iff n leeway (some e) small =
    let (there, back) = leb-saturating_add_iff n e leeway small in
    (
      λ h e' eq. let same : e ≡ e' = cc in rw (← same) (there (ensure-eq-ok _ _ h)),
      λ h. rw (back (h e refl)) refl,
    )

check_created_iff :
    (n leeway : ℕ) (created : Option ℕ)
    → ((c : ℕ) → created ≡ some c → c ≤ u64_max)
    → (check_created n leeway created ≡ ok tt) ↔ ((c : ℕ) → created ≡ some c → c ≤ n + leeway)
check_created_iff n leeway none small = (λ h c eq. cc, λ h. refl)
check_created_iff n leeway (some c) small =
    let (there, back) = leb-saturating_add_iff c n leeway (small c refl) in
    (
      λ h c' eq. let same : c ≡ c' = cc in rw (← same) (there (ensure-eq-ok _ _ h)),
      λ h. rw (back (h c refl)) refl,
    )

check_age_iff :
    (n : ℕ) (max_age created : Option ℕ)
    → (check_age n max_age created ≡ ok tt)
      ↔ ((age : ℕ) → max_age ≡ some age → (c : ℕ) × (created ≡ some c) × (n ≤ c + age))
check_age_iff n none created = (λ h age eq. cc, λ h. refl)
check_age_iff n (some age) none = (λ h. cc, λ h. cc ((h age refl).1))
check_age_iff n (some age) (some c) = (
  λ h age' eq.
      let same : age ≡ age' = cc in
      let near : leb (n - c) age ≡ true = ensure-eq-ok _ _ h in
      (c, refl, rw (← same) (ground arith)),
  λ h.
      let (c', eq, near) = h age refl in
      let same : c ≡ c' = cc in let near' : n ≤ c + age = rw same near in ground arith,
)

-- A bound on the age needs a clock.
clock_iff :
    (max_age now : Option ℕ)
    → (not (is_some max_age && is_none now) ≡ true) ↔ (IsPresent max_age → IsPresent now)
clock_iff none now = (λ h p. cc p.1, λ h. refl)
clock_iff (some age) none = (λ h. cc, λ h. cc (h (age, refl)).1)
clock_iff (some age) (some n) = (λ h p. (n, refl), λ h. refl)

-- The three checks that need a clock.
check_now_iff :
    (config : VerifyConfig) (p : SignatureParams) (n : ℕ)
    → n ≤ u64_max
    → ((c : ℕ) → p.created ≡ some c → c ≤ u64_max)
    → (check_now config p (some n) ≡ ok tt) ↔ (
        ((e : ℕ) → p.expires ≡ some e → n ≤ e + config.leeway)
        × ((c : ℕ) → p.created ≡ some c → c ≤ n + config.leeway)
        × ((age : ℕ) → config.max_age ≡ some age → (c : ℕ) × (p.created ≡ some c) × (n ≤ c + age)))
check_now_iff config p n now created =
    let (expires_in, expires_out) = check_expires_iff n config.leeway p.expires now in
    let (created_in, created_out) = check_created_iff n config.leeway p.created created in
    let (age_in, age_out) = check_age_iff n config.max_age p.created in
    (
      λ h.
          let e : check_expires n config.leeway p.expires ≡ ok tt = ground arith in
          let c : check_created n config.leeway p.created ≡ ok tt = ground arith in
          let a : check_age n config.max_age p.created ≡ ok tt = ground arith in
          (expires_in e, created_in c, age_in a),
      λ (e, c, a). rw (expires_out e, created_out c, age_out a) refl,
    )

-- `check_times` passes exactly the fresh parameters.
pub check_times_iff :
    (config : VerifyConfig) (p : SignatureParams)
    → IsU64 config p
    → (check_times config p ≡ ok tt) ↔ IsFresh config p
unfolding check_times
check_times_iff config p small =
    let (window_in, window_out) = in_order_iff p.created p.expires in
    let (clock_in, clock_out) = clock_iff config.max_age config.now in
    (
      λ h.
          let w : in_order p.created p.expires ≡ true = ground arith in
          let k : not (is_some config.max_age && is_none config.now) ≡ true = ground arith in
          let rest : check_now config p config.now ≡ ok tt = ground arith in
          let at : (n : ℕ) → config.now ≡ some n → check_now config p (some n) ≡ ok tt =
            λ n eq. subst (λ o. check_now config p o ≡ ok tt) eq rest in
          record {
            window = window_in w;
            clock = clock_in k;
            unexpired = λ n e set.
                ((check_now_iff config p n (small.now n set) small.created).0 (at n set)).0 e;
            not_future = λ n c set.
                ((check_now_iff config p n (small.now n set) small.created).0 (at n set)).1 c;
            recent = λ n age set.
                ((check_now_iff config p n (small.now n set) small.created).0 (at n set)).2 age;
          },
      λ r. elim (Option-cases config.now) [
        | inl unset ↦ rw (window_out r.window, clock_out r.clock, unset) refl
        | inr (n, set) ↦
            let passes =
              (check_now_iff config p n (small.now n set) small.created).1
                (λ e. r.unexpired n e set, λ c. r.not_future n c set, λ age. r.recent n age set) in
            rw (window_out r.window, clock_out r.clock, set, passes) refl
      ],
    )
