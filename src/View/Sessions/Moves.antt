-- ===== src/View/Sessions/Moves.antt =====
-- The invariant of the calls when one process has moved.
use membridge.Common.{
  ℕ, ◌-◌, ◌<◌, ◌≡◌, ◌≢◌, ◌^◌, inl, refl, sym, ap, subst, ◌∙◌, some, none, List, [], ◌∷◌, ◌++◌,
  arith, length, get_or, set, length-set, get_or-set_self, get_or-set_ne,
}
use native.Mathlib.Decide.{ℕ_discrete}
use membridge.Error.{PyResult}
use membridge.Codec.Value.{Runtime}
use membridge.Lock.{init}
use membridge.View.{View}
use membridge.View.Bodies.{Returns}
use membridge.View.Valid.{IsValid, invoke-Kept}
use membridge.View.Methods.{Method, Reply, invoke}
use membridge.View.Processes
use membridge.View.Processes.{
  Pc, outside, reader_spin, reader_loaded, copying, writer_spin, storing, Event, quiet, answered,
  stored, copy_out, copy_in, InBounds,
}
use membridge.View.Processes.Projection.{thread, pcs-fire}
use membridge.View.Processes.Invariant as Below
use membridge.View.Processes.Invariant.{replay, replay-append}
use membridge.View.Processes.Snapshots.{Reach-Inv}
use membridge.View.Sessions.{plan, User, Entry, System, opened, user, return}
use membridge.View.Sessions.Plans.{carry_out, plan-invoke}
use membridge.View.Sessions.Invariant.{free, Answers, Executes, Executes-snoc, Agrees, Inv}

revalid : (v : View) (a b : List ℕ) → length b ≡ length a → IsValid v (free a) → IsValid v (free b)
revalid v a b same h = record {
  header = h.header;
  limit = h.limit;
  sized = same ∙ h.sized;
  cursor_le = h.cursor_le;
}

-- Fewer than 2 ^ 31 processes, and the sizes of the segment.
pub record Mapped (size n : ℕ) (area : List ℕ) : Type 0 where
  pub few : n < 2 ^ 31
  pub header : 4 < size
  pub small : size < 2 ^ 63
  pub exact : length area ≡ size - 4

-- The area as the writes that are over leave it.
abbrev pub standing : List ℕ → System → List ℕ
standing area s = replay s.below.written area

-- The view that a call in one go leaves.
kept :
    (rt : Runtime) (c : Method) (v : View) (base base' : List ℕ) {result : PyResult Reply}
    {v' : View}
    → IsValid v (free base)
    → invoke rt 1 c v (free base) ≡ some (result, v', free base')
    → IsValid v' (free base')
kept rt c v base base' {result} {v'} valid e =
    (subst (Returns (λ _ w m. IsValid w m × (m.word ≡ init) × (w.size ≡ v.size))) e
      (invoke-Kept rt 1 v (free base) (omega arith) valid c refl)).0

module _ (rt : Runtime) {size n : ℕ} {area : List ℕ} (mapped : Mapped size n area) {s : System}
    (inv : Inv rt size n area s) (i : ℕ) (lt : i < length s.users) where
  pub lt_below : i < length s.below.pcs
  lt_below = rw inv.counted at lt

  pub below_inv : Below.Inv area s.below
  below_inv = Reach-Inv mapped.few mapped.small mapped.exact inv.reached

  pub thread-fire_self :
      (a : Processes.Action)
      → thread (Processes.fire (opened size).view i a s.below) i
        ≡ (Processes.act (opened size).view a s.below.mem (thread s.below i)).1
  thread-fire_self a =
      ap (λ l. get_or l i outside) (pcs-fire (opened size).view i a s.below)
      ∙ get_or-set_self s.below.pcs i
          (Processes.act (opened size).view a s.below.mem (thread s.below i)).1 outside lt_below

  pub thread-fire_ne :
      (a : Processes.Action) (j : ℕ)
      → i ≢ j
      → thread (Processes.fire (opened size).view i a s.below) j ≡ thread s.below j
  thread-fire_ne a j ne =
      ap (λ l. get_or l j outside) (pcs-fire (opened size).view i a s.below)
      ∙ get_or-set_ne s.below.pcs i j
          (Processes.act (opened size).view a s.below.mem (thread s.below i)).1 outside ne

  -- The invariant again, from what is true of process `i`.
  pub moved-Inv :
      (below : Processes.System) (u : User) (history : List Entry)
      → Processes.Reach (opened size).view n area below
      → length below.pcs ≡ length s.below.pcs
      → length (replay below.written area) ≡ length area
      → Executes rt history area (replay below.written area)
      → IsValid u.view (free area)
      → Agrees rt u (thread below i)
      → ((j : ℕ) → i ≢ j → thread below j ≡ thread s.below j)
      → Inv rt size n area (record { below = below; users = set s.users i u; history = history })
  moved-Inv below u history reached counted sized linear valid agrees others = record {
    reached = reached;
    counted = length-set s.users i u ∙ inv.counted ∙ sym counted;
    sized = sized;
    linear = linear;
    valid = λ j hj. elim (ℕ_discrete i j) [
      | yes e ↦
          subst (λ w. IsValid w.view (free area))
            (sym (get_or-set_self s.users i u (opened size) lt)
              ∙ ap (λ k. get_or (set s.users i u) k (opened size)) e)
            valid
      | no ne ↦
          subst (λ w. IsValid w.view (free area))
            (sym (get_or-set_ne s.users i j u (opened size) ne))
            (inv.valid j (omega (arith, hj, length-set s.users i u)))
    ];
    agrees = λ j hj. elim (ℕ_discrete i j) [
      | yes e ↦
          subst (λ k. Agrees rt (get_or (set s.users i u) k (opened size)) (thread below k)) e
            (subst (λ w. Agrees rt w (thread below i))
              (sym (get_or-set_self s.users i u (opened size) lt)) agrees)
      | no ne ↦
          subst (λ w. Agrees rt w (thread below j))
            (sym (get_or-set_ne s.users i j u (opened size) ne))
            (subst (Agrees rt (user rt size s j)) (sym (others j ne))
              (inv.agrees j (omega (arith, hj, length-set s.users i u))))
    ];
  }

  abbrev entry : Method → PyResult Reply → View → Entry
  entry c result v' = record {
    by = i;
    method = c;
    before = (user rt size s i).view;
    result = result;
    after = v';
  }

  -- Process `i` returns what its call gives in one go, between the areas before and after it.
  pub answered-Inv :
      (below : Processes.System) (c : Method) (result : PyResult Reply) (v' : View)
      → Processes.Reach (opened size).view n area below
      → length below.pcs ≡ length s.below.pcs
      → length (replay below.written area) ≡ length area
      → Answers rt (entry c result v') (standing area s) (replay below.written area)
      → IsValid v' (free area)
      → thread below i ≡ outside
      → ((j : ℕ) → i ≢ j → thread below j ≡ thread s.below j)
      → Inv rt size n area
          (return rt size i c (user rt size s i).view (result, v') (record s { below = below }))
  unfolding return
  answered-Inv below c result v' reached counted sized answers valid at_rest others =
      moved-Inv below (record { view = v'; calling = none }) (s.history ++ (entry c result v' ∷ []))
        reached counted sized
        (Executes-snoc rt s.history (entry c result v') area (standing area s)
          (replay below.written area) inv.linear answers)
        valid (subst (Agrees rt (record { view = v'; calling = none })) (sym at_rest) refl) others

  -- The same for a call in one go on a free lock, which keeps the view valid.
  pub returned-Inv :
      (below : Processes.System) (c : Method) (result : PyResult Reply) (v' : View)
      → Processes.Reach (opened size).view n area below
      → length below.pcs ≡ length s.below.pcs
      → length (replay below.written area) ≡ length area
      → invoke rt 1 c (user rt size s i).view (free (standing area s))
        ≡ some (result, v', free (replay below.written area))
      → thread below i ≡ outside
      → ((j : ℕ) → i ≢ j → thread below j ≡ thread s.below j)
      → Inv rt size n area
          (return rt size i c (user rt size s i).view (result, v') (record s { below = below }))
  returned-Inv below c result v' reached counted sized in_one_go at_rest others =
      answered-Inv below c result v' reached counted sized (init, inl refl, in_one_go)
        (revalid v' (replay below.written area) area (sym sized) (
          kept rt c (user rt size s i).view (standing area s) (replay below.written area)
            (revalid (user rt size s i).view area (standing area s) inv.sized (inv.valid i lt))
            in_one_go))
        at_rest others

  pub in_one_go :
      (c : Method)
      → invoke rt 1 c (user rt size s i).view (free (standing area s))
        ≡ carry_out (plan rt c (user rt size s i).view) (free (standing area s))
  in_one_go c =
      plan-invoke rt 1 (free (standing area s)) (omega arith) refl c (user rt size s i).view
