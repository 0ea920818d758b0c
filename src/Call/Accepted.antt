-- ===== src/Call/Accepted.antt =====
-- Which chunk calls `validate_context` lets in.
use rola.Prelude.{
  >>=-eq-ok, All, Bool, Bool-cases, List, Option, Result-cases, ap, arith, false, get_or, inl, inr,
  is_some, length, none, ok, ok_injective, refl, some, sym, true, ℕ, ◌==◌, ◌>>=◌, ◌>>◌, ◌↔◌, ◌∙◌,
  ◌∷◌, ◌≡◌,
}
use rola.Rules.{Row}
use rola.Runner.{subset}
use rola.Routing.{LevelRouting}
use rola.Routing.Constructed.{IsConstructed}
use rola.Routing.Decay.{Dial}
use rola.Routing.Descriptor.{TensorFacts}
use rola.Routing.Metadata.{tuple_eq_iff, seq_iff}
use rola.Routing.Factors.{Entry, RouteFactors, prefix_of}
use rola.Call.{operands_of, requires_backward, require_envelope}
use rola.Call.Context.{
  ChunkContext, suppliable, first_of, levels_of, value_of, check_value, check_decay, state_of,
  routes_of, check_envelope, validate_context,
}
use rola.Call.Envelope.{RunsHere, require_envelope_iff}

value_of_lem :
    (e : Entry) (t : TensorFacts) → value_of e ≡ ok t → (e ≡ Entry.tensor t) × (length t.shape ≡ 4)
unfolding value_of
value_of_lem Entry.missing t h = cc
value_of_lem Entry.foreign t h = cc
value_of_lem (Entry.tensor s) t h = elim (Bool-cases (length s.shape == 4)) [
  | inl four ↦
      let same : s ≡ t = ok_injective s t (rw four at h) in
      (ap Entry.tensor same, sym (ap (λ x. length x.shape) same) ∙ ground (arith, four))
  | inr other ↦ cc (rw other at h)
]

check_value_iff :
    (t first : TensorFacts)
    → (check_value t first ≡ ok tt) ↔ ((prefix_of t ≡ prefix_of first) × (t.device ≡ first.device))
unfolding check_value
check_value_iff t first = (
  λ h. ((tuple_eq_iff (prefix_of t) (prefix_of first)).0 (ground arith), ground arith),
  λ h. ground (arith, (tuple_eq_iff (prefix_of t) (prefix_of first)).1 h.0, h.1),
)

module _ {ℓ} {S : Type ℓ} (cuda : ℕ → Bool) (manifest : List Row) (enabled : Bool) where
  -- What a call has that is let in: it supplies what may be supplied, its values are a tensor of
  -- the tokens and the device of `read[0]`, its state is None or a state, and it runs here.
  pub record IsAccepted (ctx : ChunkContext S) (r : RouteFactors) (level : LevelRouting)
      (levels : List LevelRouting) : Type ℓ where
    pub first : TensorFacts
    pub value : TensorFacts
    pub state : Option S
    pub supplies : subset ctx.supplied suppliable ≡ true
    pub is_first : first_of r.read ≡ ok first
    pub is_value : ctx.v ≡ Entry.tensor value
    pub is_state : state_of ctx.state ≡ ok state
    pub rank : length value.shape ≡ 4
    pub tokens : prefix_of value ≡ prefix_of first
    pub device : value.device ≡ first.device
    pub runs :
        RunsHere manifest level levels
          (cuda first.device)
          (get_or value.shape 3 0)
          (is_some ctx.decay)
          (requires_backward enabled (operands_of ctx.flags))
          (is_some state)

  module _ (ctx : ChunkContext S) (r : RouteFactors) (level : LevelRouting)
      (levels : List LevelRouting) where
    IsAccepted-from :
        (first value : TensorFacts)
        → All IsConstructed (level ∷ levels)
        → subset ctx.supplied suppliable ≡ true
        → first_of r.read ≡ ok first
        → value_of ctx.v ≡ ok value
        → (check_value value first
            >> (check_decay ctx.decay (level ∷ levels)
                >> check_envelope cuda manifest enabled ctx (level ∷ levels) value first))
          ≡ ok tt
        → IsAccepted ctx r level levels
    unfolding check_envelope
    IsAccepted-from first value p supplies is_first is_value h =
        let later =
          check_decay ctx.decay (level ∷ levels)
          >> check_envelope cuda manifest enabled ctx (level ∷ levels) value first in
        let (placed, after) = (seq_iff (check_value value first) later).0 h in
        let (lasting, run) =
          (seq_iff (check_decay ctx.decay (level ∷ levels))
              (check_envelope cuda manifest enabled ctx (level ∷ levels) value first)).0
            after in
        let (state, is_state, fits) =
          >>=-eq-ok (state_of ctx.state)
            (λ s.
              require_envelope manifest (level ∷ levels) (cuda first.device)
                (get_or value.shape 3 0) ctx.decay
                (requires_backward enabled (operands_of ctx.flags)) s)
            run in
        let (tensor_there, four) = value_of_lem ctx.v value is_value in
        let (same, beside) = (check_value_iff value first).0 placed in
        record {
          first = first;
          value = value;
          state = state;
          supplies = supplies;
          is_first = is_first;
          is_value = tensor_there;
          is_state = is_state;
          rank = four;
          tokens = same;
          device = beside;
          runs =
              (require_envelope_iff manifest level levels ctx.decay (get_or value.shape 3 0)
                  (cuda first.device) (requires_backward enabled (operands_of ctx.flags)) state p).0
                fits;
        }

    validate_context-IsAccepted :
        ctx.routes ≡ some r
        → r.topology ≡ some (level ∷ levels)
        → All IsConstructed (level ∷ levels)
        → validate_context cuda manifest enabled ctx ≡ ok tt
        → IsAccepted ctx r level levels
    unfolding validate_context routes_of levels_of
    validate_context-IsAccepted given topped p h =
        elim (Bool-cases (subset ctx.supplied suppliable)) [
          | inr unlawful ↦ cc (rw unlawful at h)
          | inl supplies ↦ elim (Result-cases (value_of ctx.v)) [
            | inr (x, e) ↦ cc (rw (supplies, given, e) at h)
            | inl (value, e) ↦ elim (Result-cases (first_of r.read)) [
              | inr (x, f) ↦ cc (rw (supplies, given, e, f) at h)
              | inl (first, f) ↦
                  let later : (check_value value first >>= λ placed.
                  levels_of r.topology >>= λ them.
                  check_decay ctx.decay them
                  >> check_envelope cuda manifest enabled ctx them value first)
                      ≡ ok tt =
                    rw (supplies, given, e, f) at h in
                  IsAccepted-from first value p supplies f e (rw topped at later)
            ]
          ]
        ]

    IsAccepted-validate_context :
        ctx.routes ≡ some r
        → r.topology ≡ some (level ∷ levels)
        → All IsConstructed (level ∷ levels)
        → IsAccepted ctx r level levels
        → validate_context cuda manifest enabled ctx ≡ ok tt
    unfolding validate_context routes_of levels_of value_of check_decay check_envelope
    IsAccepted-validate_context given topped p a =
        let placed = (check_value_iff a.value a.first).1 (a.tokens, a.device) in
        let runs =
          (require_envelope_iff manifest level levels ctx.decay (get_or a.value.shape 3 0)
              (cuda a.first.device) (requires_backward enabled (operands_of ctx.flags)) a.state p).1
            a.runs in
        let undecayed : check_decay ctx.decay (level ∷ levels) ≡ ok tt =
          none_checked ctx.decay a.runs.no_decay in
        rw
          (
            a.supplies, given, a.is_value, a.rank, a.is_first, placed, topped, undecayed,
            a.is_state, runs,
          )
          refl
      where
        none_checked :
            (d : Option (List Dial)) → is_some d ≡ false → check_decay d (level ∷ levels) ≡ ok tt
        none_checked none h = refl
        none_checked (some d) h = cc

    -- Over constructed levels, one at least, `validate_context` lets in exactly the calls that
    -- supply only what may be supplied, whose value is a tensor of four dimensions with the tokens
    -- and the device of the routing, whose state is None or a state, and that run here.
    pub validate_context_iff :
        ctx.routes ≡ some r
        → r.topology ≡ some (level ∷ levels)
        → All IsConstructed (level ∷ levels)
        → (validate_context cuda manifest enabled ctx ≡ ok tt) ↔ IsAccepted ctx r level levels
    validate_context_iff given topped p =
        (validate_context-IsAccepted given topped p, IsAccepted-validate_context given topped p)
