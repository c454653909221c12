-- ===== src/FlowEngine/Reply/Laws.antt =====
-- The text that is hashed for the idempotency key of a reply, and its parts.
use zernflow.Base.{ℕ, ◌≡◌, ◌≢◌, refl, sym, ap, ◌∙◌, [], ◌∷◌, ◌++◌, arith, All, All-implies}
use mathlib.Core.Path.{subst}
use zernflow.Base.Json.{Text, decimal}
use zernflow.FlowEngine.Messages.Numbered.{read_number}
use zernflow.FlowEngine.Messages.Numbered.Laws.{digits_of-IsDigit, read_number-digits_of}
use zernflow.FlowEngine.Reply.{KeyInput, key_text}

abbrev pub NoColon : Text → Type 0
NoColon text = All (λ c. c ≢ b':') text

decimal-NoColon : (n : ℕ) → NoColon (decimal n)
unfolding decimal
decimal-NoColon n =
    All-implies (λ c digit colon. omega (arith, colon, digit)) (decimal n)
      (digits_of-IsDigit n n (omega arith))

decimal_injective : (a b : ℕ) → decimal a ≡ decimal b → a ≡ b
unfolding decimal
decimal_injective a b e =
    sym (read_number-digits_of a a (omega arith))
    ∙ ap (read_number 0) e
    ∙ read_number-digits_of b b (omega arith)

-- The first colon.
colon_splits :
    (xs ys u v : Text)
    → NoColon xs
    → NoColon ys
    → xs ++ b':' ∷ u ≡ ys ++ b':' ∷ v
    → (xs ≡ ys) × (u ≡ v)
colon_splits [] [] u v h k e = (refl, cc)
colon_splits [] (y ∷ ys) u v h k e = let same : y ≡ b':' = cc in absurd (k.0 same)
colon_splits (x ∷ xs) [] u v h k e = let same : x ≡ b':' = cc in absurd (h.0 same)
colon_splits (x ∷ xs) (y ∷ ys) u v h k e =
    let same : x ≡ y = cc in
    let rest = colon_splits xs ys u v h.1 k.1 cc in (rw (same, rest.0) refl, rest.1)

has_colon : (xs u : Text) → NoColon (xs ++ b':' ∷ u) → ⊥
has_colon [] u h = h.0 refl
has_colon (x ∷ xs) u h = has_colon xs u h.1

-- The last colon, whatever is in front of it.
last_colon_splits :
    (xs ys u v : Text)
    → NoColon u
    → NoColon v
    → xs ++ b':' ∷ u ≡ ys ++ b':' ∷ v
    → (xs ≡ ys) × (u ≡ v)
last_colon_splits [] [] u v h k e = (refl, cc)
last_colon_splits [] (y ∷ ys) u v h k e =
    let after : u ≡ ys ++ b':' ∷ v = cc in absurd (has_colon ys v (subst NoColon after h))
last_colon_splits (x ∷ xs) [] u v h k e =
    let after : xs ++ b':' ∷ u ≡ v = cc in absurd (has_colon xs u (subst NoColon (sym after) k))
last_colon_splits (x ∷ xs) (y ∷ ys) u v h k e =
    let same : x ≡ y = cc in
    let rest = last_colon_splits xs ys u v h k cc in (rw (same, rest.0) refl, rest.1)

abbrev input : Text → Text → Text → Text → ℕ → KeyInput
input w f s n i = record {
  workspace_id = w;
  flow_id = f;
  session_id = s;
  node_id = n;
  message_index = i;
}

same_parts :
    {w w' f f' s s' n n' : Text} {i i' : ℕ}
    → w ≡ w'
    → f ≡ f'
    → s ≡ s'
    → n ≡ n'
    → i ≡ i'
    → input w f s n i ≡ input w' f' s' n' i'
same_parts a b c d e = rw (a, b, c, d, e) refl

-- The identifiers of the rows, UUIDs, have no colon; that of a node is any text of the flow.
abbrev pub HasRowIds : KeyInput → Type 0
HasRowIds k = NoColon k.workspace_id × NoColon k.flow_id × NoColon k.session_id

-- Two replies of which the same text is hashed for the idempotency key are for the same message of
-- the same node, in the same session, flow and workspace, if the identifiers of these three have no
-- colon, whatever text the identifier of a node is. (A node that is visited again in its session has
-- the same identifiers.)
pub key_text_injective :
    (k l : KeyInput) → HasRowIds k → HasRowIds l → key_text k ≡ key_text l → k ≡ l
unfolding key_text
key_text_injective k l rows rows' e =
    let workspace =
      colon_splits k.workspace_id l.workspace_id (from_flow k) (from_flow l) rows.0 rows'.0 e in
    let flow =
      colon_splits k.flow_id l.flow_id (from_session k) (from_session l) rows.1 rows'.1
        workspace.1 in
    let session =
      colon_splits k.session_id l.session_id (from_node k) (from_node l) rows.2 rows'.2 flow.1 in
    let node =
      last_colon_splits k.node_id l.node_id (decimal k.message_index) (decimal l.message_index)
        (decimal-NoColon k.message_index) (decimal-NoColon l.message_index) session.1 in
    same_parts workspace.0 flow.0 session.0 node.0
      (decimal_injective k.message_index l.message_index node.1)
  where
    from_node : KeyInput → Text
    from_node k = k.node_id ++ b':' ∷ decimal k.message_index

    from_session : KeyInput → Text
    from_session k = k.session_id ++ b':' ∷ from_node k

    from_flow : KeyInput → Text
    from_flow k = k.flow_id ++ b':' ∷ from_session k
