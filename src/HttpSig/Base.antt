-- ===== src/HttpSig/Base.antt =====
-- The signature base determines what it covers.
use wimsey.Common.{
  ◌≡◌, refl, sym, ap, subst, ◌∙◌, true, false, not, List, [], ◌∷◌, ◌++◌, ok, ensure, Result, ◌>>=◌,
  arith, All, >>=-eq-ok, then-eq-ok, ensure-eq-ok, append_assoc, if◌then◌else◌,
}
use wimsey.Text.{
  Str, codes, contains_char, trim, split_whitespace, contains_char-append, append_cancel,
  split_once_unique,
}
use wimsey.HttpSig.Error.{HttpSigError, invalid_component_value}
use wimsey.HttpSig.Message.{Component, quoted_id, ComponentSource}
use wimsey.HttpSig.Member.{
  InputMember, parse_input_member, parse_components, parse_params, split_inner,
}
use wimsey.HttpSig.Params.{
  SignatureParams, default, has_newline, base_lines, signature_base_from_params_str,
}

not-newline : (v : Str) → not (has_newline v) ≡ true → contains_char b'\n' v ≡ false
not-newline v h = ground arith

-- The line of a component, in front of the other lines.
line_of :
    (message : ComponentSource) (c : Component) (cs : List Component) (last base : Str)
    → base_lines message (c ∷ cs) last ≡ ok base
    → (value : Str) × (rest : Str) × (message.component_value c ≡ ok value)
      × (contains_char b'\n' value ≡ false)
      × (base_lines message cs last ≡ ok rest)
      × (base ≡ quoted_id c ++ (codes ": " ++ (value ++ (b'\n' ∷ rest))))
unfolding base_lines
line_of message c cs last base h =
    let (value, read, h1) = >>=-eq-ok (message.component_value c) _ h in
    let (clean, h2) =
      then-eq-ok (ensure (not (has_newline value)) (invalid_component_value (quoted_id c))) _ h1 in
    let (rest, later, made) = >>=-eq-ok (base_lines message cs last) _ h2 in
    (value, rest, read, not-newline value (ensure-eq-ok _ _ clean), later, cc)

base_lines_injective :
    (m n : ComponentSource) (cs : List Component) (last last' base : Str)
    → base_lines m cs last ≡ ok base
    → base_lines n cs last' ≡ ok base
    → (last ≡ last') × All (λ c. m.component_value c ≡ n.component_value c) cs
base_lines_injective m n [] last last' base h k = ((unfold base_lines in cc), tt)
base_lines_injective m n (c ∷ cs) last last' base h k =
    let (v, s, read, clean, later, made) = line_of m c cs last base h in
    let (w, t, read', clean', later', made') = line_of n c cs last' base k in
    let tails =
      append_cancel (codes ": ") _ _ (append_cancel (quoted_id c) _ _ (sym made ∙ made')) in
    let (same, rest) = split_once_unique b'\n' v w s t clean clean' tails in
    let (ends, others) =
      base_lines_injective m n cs last last' s later (later' ∙ ap ok (sym rest)) in
    (ends, (read ∙ (ap ok same ∙ sym read'), others))

-- The text after the last line feed.
last_line : Str → Str
last_line [] = []
last_line (c ∷ s) = if contains_char b'\n' (c ∷ s) then last_line s else c ∷ s

last_line-whole : (s : Str) → contains_char b'\n' s ≡ false → last_line s ≡ s
unfolding last_line
last_line-whole [] h = refl
last_line-whole (c ∷ s) h = rw h refl

last_line-append : (s t : Str) → last_line (s ++ b'\n' ∷ t) ≡ last_line t
unfolding last_line contains_char
last_line-append [] t = refl
last_line-append (c ∷ s) t =
    let has : contains_char b'\n' (c ∷ s ++ b'\n' ∷ t) ≡ true =
      contains_char-append b'\n' (c ∷ s) (b'\n' ∷ t) ∙ ground arith in
    rw has (last_line-append s t)

-- The last line of the base is the line of the parameters, however many components there are.
base_lines-last_line :
    (m : ComponentSource) (cs : List Component) (last base : Str)
    → contains_char b'\n' last ≡ false
    → base_lines m cs last ≡ ok base
    → last_line base ≡ last
base_lines-last_line m [] last base clean h =
    let same : last ≡ base = (unfold base_lines in cc) in rw (← same) (last_line-whole last clean)
base_lines-last_line m (c ∷ cs) last base clean h =
    let (v, s, read, clean', later, made) = line_of m c cs last base h in
    let front = quoted_id c ++ (codes ": " ++ v) in
    let joined : base ≡ front ++ b'\n' ∷ s =
      made
      ∙ (ap (λ r. quoted_id c ++ r) (sym (append_assoc (codes ": ") v (b'\n' ∷ s)))
          ∙ sym (append_assoc (quoted_id c) (codes ": " ++ v) (b'\n' ∷ s))) in
    ap last_line joined ∙ (last_line-append front s ∙ base_lines-last_line m cs last s clean later)

signature_base-last_line :
    (m : ComponentSource) (components : List Component) (value base : Str)
    → signature_base_from_params_str m components value ≡ ok base
    → last_line base ≡ codes "\"@signature-params\": " ++ value
unfolding signature_base_from_params_str contains_char
signature_base-last_line m components value base h =
    let (h0, h1) = then-eq-ok (ensure (not (has_newline value)) _) _ h in
    let clean = not-newline value (ensure-eq-ok _ _ h0) in
    base_lines-last_line m components (codes "\"@signature-params\": " ++ value) base clean h1

-- If two messages give the same signature base under the same covered components, with any two texts of the signature parameters, then the texts of the parameters are equal and the two messages give the same value to every covered component.
pub signature_base_injective :
    (m n : ComponentSource) (components : List Component) (p q base : Str)
    → signature_base_from_params_str m components p ≡ ok base
    → signature_base_from_params_str n components q ≡ ok base
    → (p ≡ q) × All (λ c. m.component_value c ≡ n.component_value c) components
unfolding signature_base_from_params_str
signature_base_injective m n components p q base h k =
    let (h0, h1) = then-eq-ok (ensure (not (has_newline p)) _) _ h in
    let (k0, k1) = then-eq-ok (ensure (not (has_newline q)) _) _ k in
    let (ends, values) = base_lines_injective m n components _ _ base h1 k1 in
    (append_cancel (codes "\"@signature-params\": ") p q ends, values)

-- What the text of a member's parameters says, read by itself.
parse_value : Str → Result HttpSigError (List Component × SignatureParams)
parse_value value = do
  parts ← split_inner value
  components ← parse_components (split_whitespace parts.0)
  params ← parse_params parts.1 default
  ok (components, params)

parse_value-member :
    (label member : Str) (m : InputMember)
    → parse_input_member label member ≡ ok m
    → parse_value m.params_value ≡ ok (m.components, m.params)
unfolding parse_value parse_input_member
parse_value-member label member m h =
    let (parts, h0, k0) = >>=-eq-ok (split_inner (trim member)) _ h in
    let (components, h1, k1) = >>=-eq-ok (parse_components (split_whitespace parts.0)) _ k0 in
    let (params, h2, k2) = >>=-eq-ok (parse_params parts.1 default) _ k1 in
    let value : trim member ≡ m.params_value = cc in
    let listed : components ≡ m.components = cc in
    let read : params ≡ m.params = cc in rw (← value, h0, h1, h2, listed, read) refl

-- If two members that `parse_input_member` read, whatever their labels, give the same signature base over two messages, then the two have the same text of parameters, the same components and the same parameters, and every component has the same value in both messages.
pub member_base_injective :
    (m n : ComponentSource) (label label' text text' base : Str) (a b : InputMember)
    → parse_input_member label text ≡ ok a
    → parse_input_member label' text' ≡ ok b
    → signature_base_from_params_str m a.components a.params_value ≡ ok base
    → signature_base_from_params_str n b.components b.params_value ≡ ok base
    → (a.params_value ≡ b.params_value)
      × (a.components ≡ b.components)
      × (a.params ≡ b.params)
      × All (λ c. m.component_value c ≡ n.component_value c) a.components
member_base_injective m n label label' text text' base a b read read' h k =
    let values =
      sym (signature_base-last_line m a.components a.params_value base h)
      ∙ signature_base-last_line n b.components b.params_value base k in
    let value =
      append_cancel (codes "\"@signature-params\": ") a.params_value b.params_value values in
    let said =
      sym (parse_value-member label text a read)
      ∙ (ap parse_value value ∙ parse_value-member label' text' b read') in
    let components : a.components ≡ b.components = cc in
    let params : a.params ≡ b.params = cc in
    let again =
      subst (λ cs. signature_base_from_params_str n cs b.params_value ≡ ok base) (sym components)
        k in
    (
      value,
      components,
      params,
      (signature_base_injective m n a.components a.params_value b.params_value base h again).1,
    )
