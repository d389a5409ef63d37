-- ===== src/Parse/Feedback/Scan.antt =====
-- The scanners of JavaScript calls: where `findCallEnd` stops, the quotes are closed, for
-- `parseJSCallArgs` as well.
use go_amizone.Base.{
  ℕ, suc, ◌+◌, ◌≡◌, refl, ap, subst, Bool, true, false, [], ◌∷◌, ◌++◌, none, some, Text, length,
  arith, Option-cases, inl, inr,
}
use go_amizone.Parse.Feedback.{
  end_step, find_end_from, find_call_end, Scanner, arg_step, scanner_start,
}

-- The state of `parseJSCallArgs` after some characters.
unfoldable pub scanned : Scanner → Text → Scanner
scanned s [] = s
scanned s (r ∷ raw) = scanned (arg_step s r).1 raw

-- Both scanners treat quotes and escapes alike.
arg_step-end_step :
    (s : Scanner) (r quote' : ℕ) (escaped' : Bool)
    → end_step s.quote s.escaped r ≡ some (quote', escaped')
    → ((arg_step s r).1.quote ≡ quote') × ((arg_step s r).1.escaped ≡ escaped')
unfolding arg_step end_step
arg_step-end_step s r quote' escaped' h = ground (arith, h)

end_step-none :
    (quote : ℕ) (escaped : Bool) (r : ℕ)
    → end_step quote escaped r ≡ none
    → (quote ≡ 0) × ((escaped ≡ false) × (r ≡ b')'))
unfolding end_step
end_step-none quote true r h = ground (arith, h)
end_step-none quote false r h = ground (arith, h)

-- The text up to a position: the parenthesis is there, and the scanner of arguments that has read
-- what precedes it is outside quotes and escapes.
pub record EndsCall (s : Scanner) (raw : Text) (n : ℕ) : Type 0 where
  pub before : Text
  pub after : Text
  pub split : raw ≡ before ++ (b')' ∷ after)
  pub position : length before ≡ n
  pub closed : (scanned s before).quote ≡ 0
  pub unescaped : (scanned s before).escaped ≡ false

find_end_from-EndsCall :
    (i n : ℕ) (s : Scanner) (raw : Text)
    → find_end_from i s.quote s.escaped raw ≡ some n
    → (k : ℕ) × ((n ≡ i + k) × EndsCall s raw k)
unfolding find_end_from scanned
find_end_from-EndsCall i n s [] h = ground arith
find_end_from-EndsCall i n s (r ∷ raw) h = elim (Option-cases (end_step s.quote s.escaped r)) [
  | inl e ↦
      let (outside, (plain, paren)) = end_step-none s.quote s.escaped r e in
      (
        0,
        (
          ground (arith, h, e),
          record {
            before = [];
            after = raw;
            split = ap (λ c. c ∷ raw) paren;
            position = refl;
            closed = outside;
            unescaped = plain;
          },
        ),
      )
  | inr ((quote', escaped'), e) ↦
      let (same_quote, same_escaped) = arg_step-end_step s r quote' escaped' e in
      let next : find_end_from (suc i) quote' escaped' raw ≡ some n = ground (arith, h, e) in
      let (k, (at, rest)) =
        find_end_from-EndsCall (suc i) n (arg_step s r).1 raw
          (rw (same_quote, same_escaped) next) in
      (
        suc k,
        (
          omega (arith, at),
          record {
            before = r ∷ rest.before;
            after = rest.after;
            split = ap (λ t. r ∷ t) rest.split;
            position = ap suc rest.position;
            closed = rest.closed;
            unescaped = rest.unescaped;
          },
        ),
      )
]

-- Where `findCallEnd` finds the end of a call, a parenthesis stands, and `parseJSCallArgs` has closed
-- all quotes when it has read the characters before it.
pub find_call_end-EndsCall :
    (raw : Text) (n : ℕ) → find_call_end raw ≡ some n → EndsCall scanner_start raw n
unfolding find_call_end
find_call_end-EndsCall raw n h =
    let (k, (same, ends)) = find_end_from-EndsCall 0 n scanner_start raw h in
    subst (EndsCall scanner_start raw) (omega (arith, same)) ends
