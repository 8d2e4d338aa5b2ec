-- ===== src/Services/Valid.antt =====
-- A service as the heartbeat validator wants it.
use homelab_inventory_agent.Prelude.{
  ◌≤◌, ◌&&◌, ◌||◌, not, le→ltb, Text, is_blank, is_empty, length, Bool, true, false, none, ◌≡◌,
  arith, first_failed, first_failed_ok, first_failed-none, ℕ, ltb, [], ◌∷◌,
}
use homelab_inventory_agent.Protocol.Types.{Service}
use homelab_inventory_agent.Protocol.Heartbeat.{
  validate_service, one_of, classifications, longer, bad_gauge,
}

-- No class, or one of the known ones.
abbrev pub is_known : Text → Bool
is_known class = is_empty class || one_of classifications class

pub known-is_known : (class : Text) → one_of classifications class ≡ true → is_known class ≡ true
known-is_known class h = rw h (ground arith)

pub record Fits (s : Service) : Type 0 where
  pub named : is_blank s.name ≡ false
  pub name_fits : length s.name ≤ 256
  pub description_fits : length s.description ≤ 2048
  pub active : is_blank s.active_state ≡ false
  pub active_fits : length s.active_state ≤ 64
  pub sub_fits : length s.sub_state ≤ 64
  pub classified : is_known s.classification ≡ true
  pub result_fits : longer s.last_result 256 ≡ false
  pub active_time_fits : longer s.active_entered_at 128 ≡ false
  pub inactive_time_fits : longer s.inactive_entered_at 128 ≡ false
  pub gauge : bad_gauge s.cpu_percent ≡ false

six_false :
    (a b c d e f : Bool)
    → a ≡ false
    → b ≡ false
    → c ≡ false
    → d ≡ false
    → e ≡ false
    → f ≡ false
    → (a || b || c || d || e || f) ≡ false
six_false a b c d e f ha hb hc hd he hf = ground arith

known-false : (a b : Bool) → (a || b) ≡ true → (not a && not b) ≡ false
known-false a b h = ground arith

three_pass :
    {E : Type 0} (a b c : Bool) (x y z : E)
    → a ≡ false
    → b ≡ false
    → c ≡ false
    → first_failed ((a, x) ∷ (b, y) ∷ (c, z) ∷ []) ≡ none
three_pass a b c x y z ha hb hc =
    first_failed_ok ((a, x) ∷ (b, y) ∷ (c, z) ∷ []) (ha, (hb, (hc, tt)))

pub Fits-validate_service : (s : Service) → Fits s → validate_service s ≡ none
unfolding validate_service
Fits-validate_service s h =
    three_pass _ _ _ _ _ _
      (six_false _ _ _ _ _ _ h.named (le→ltb 256 _ h.name_fits) (le→ltb 2048 _ h.description_fits)
        h.active (le→ltb 64 _ h.active_fits) (le→ltb 64 _ h.sub_fits))
      (known-false _ _ h.classified)
      (ground (arith, h.result_fits, h.active_time_fits, h.inactive_time_fits, h.gauge))

six_of :
    (a b c d e f : Bool)
    → (a || b || c || d || e || f) ≡ false
    → (a ≡ false) × (b ≡ false) × (c ≡ false) × (d ≡ false) × (e ≡ false) × (f ≡ false)
six_of a b c d e f h = ground arith

four_of :
    (a b c d : Bool)
    → (a || b || c || d) ≡ false
    → (a ≡ false) × (b ≡ false) × (c ≡ false) × (d ≡ false)
four_of a b c d h = ground arith

known_of : (a b : Bool) → (not a && not b) ≡ false → (a || b) ≡ true
known_of a b h = ground arith

within_of : (k n : ℕ) → ltb k n ≡ false → n ≤ k
within_of k n h = ground arith

three_of :
    {E : Type 0} (a b c : Bool) (x y z : E)
    → first_failed ((a, x) ∷ (b, y) ∷ (c, z) ∷ []) ≡ none
    → (a ≡ false) × (b ≡ false) × (c ≡ false)
three_of a b c x y z h =
    let (p, (q, (r, end))) = first_failed-none ((a, x) ∷ (b, y) ∷ (c, z) ∷ []) h in (p, q, r)

pub validate_service-Fits : (s : Service) → validate_service s ≡ none → Fits s
unfolding validate_service
validate_service-Fits s h =
    let (identity, class, telemetry) = three_of _ _ _ _ _ _ h in
    let (a, b, c, d, e, f) = six_of _ _ _ _ _ _ identity in
    let (u, v, w, x) = four_of _ _ _ _ telemetry in
    record {
      named = a;
      name_fits = within_of _ _ b;
      description_fits = within_of _ _ c;
      active = d;
      active_fits = within_of _ _ e;
      sub_fits = within_of _ _ f;
      classified = known_of _ _ class;
      result_fits = u;
      active_time_fits = v;
      inactive_time_fits = w;
      gauge = x;
    }
