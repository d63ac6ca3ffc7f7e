-- ===== src/Start/Plan/Laws.antt =====
-- The setting that is chosen, and how much its transfers hold.
use native.Mathlib.Nat.{div-mul-le_self, lt-div-mul-add}
use tcluvc.Prelude.{
  ℕ, zero, suc, ◌+◌, ◌-◌, ◌*◌, ◌/◌, ◌≤◌, ◌<◌, ◌≡◌, ◌⊎◌, inl, inr, refl, Option, none, some, List,
  [], ◌∷◌, ◌++◌, ltb, if◌then◌else◌, done, arith, Bool-cases,
}
use tcluvc.Usb.Config.{AltSetting}
use tcluvc.Start.Plan.{endpoint_bytes, packets_for, Plan, plan_for, choose}

-- No setting of the list has packets of so many bytes.
pub data AllBelow (address need : ℕ) : List AltSetting → Type 0 where
  no_settings : AllBelow address need []
  below_then :
      {alt : AltSetting} {alts : List AltSetting}
      → endpoint_bytes address alt.endpoints < need
      → AllBelow address need alts
      → AllBelow address need (alt ∷ alts)

pub mul_mono : (a c b : ℕ) → a ≤ c → a * b ≤ c * b
mul_mono a c b h = grind arith

at_most_32 : ℕ → ℕ
at_most_32 packets = if ltb 32 packets then 32 else packets

some_rounds :
    (frame_size bytes q : ℕ) → 0 < frame_size → frame_size + bytes - 1 < q * bytes + bytes → 0 < q
some_rounds frame_size bytes zero h below = absurd (omega arith)
some_rounds frame_size bytes (suc q) h below = omega arith

rounds_bounds :
    (frame_size bytes q : ℕ)
    → 0 < frame_size
    → q * bytes ≤ frame_size + bytes - 1
    → frame_size + bytes - 1 < q * bytes + bytes
    → (0 < at_most_32 q)
      × (at_most_32 q ≤ 32)
      × (at_most_32 q * bytes < frame_size + bytes)
      × ((at_most_32 q ≡ 32) ⊎ (frame_size ≤ at_most_32 q * bytes))
unfolding at_most_32
rounds_bounds frame_size bytes q h above below = elim (Bool-cases (ltb 32 q)) [
  | inl e ↦
      let many : 32 * bytes ≤ q * bytes = mul_mono 32 q bytes (ground (arith, e)) in
      rw e (omega arith, omega arith, omega arith, inl refl)
  | inr e ↦
      rw e
        (some_rounds frame_size bytes q h below, ground (arith, e), omega arith, inr (omega arith))
]

-- The transfers of a frame of `frame_size` bytes.
packets_bounds :
    (frame_size bytes : ℕ)
    → 0 < frame_size
    → 0 < bytes
    → (0 < packets_for frame_size bytes)
      × (packets_for frame_size bytes ≤ 32)
      × (packets_for frame_size bytes * bytes < frame_size + bytes)
      × ((packets_for frame_size bytes ≡ 32) ⊎ (frame_size ≤ packets_for frame_size bytes * bytes))
unfolding at_most_32
packets_bounds frame_size bytes some_frame some_bytes =
    rounds_bounds frame_size bytes ((frame_size + bytes - 1) / bytes) some_frame
      (div-mul-le_self (frame_size + bytes - 1) bytes) (lt-div-mul-add some_bytes)

-- A plan whose transfers are those for a frame, in packets of its setting.
pub record IsPlan (address frame_size : ℕ) (p : Plan) : Type 0 where
  pub size : p.packet_size ≡ endpoint_bytes address p.setting.endpoints
  pub some_bytes : 0 < p.packet_size
  pub some_packets : 0 < p.packets
  pub few : p.packets ≤ 32
  pub total : p.total ≡ p.packets * p.packet_size
  pub one_frame : p.total < frame_size + p.packet_size
  pub whole_frame : (p.packets ≡ 32) ⊎ (frame_size ≤ p.total)

pub plan_for-IsPlan :
    (address frame_size : ℕ) (alt : AltSetting)
    → 0 < frame_size
    → 0 < endpoint_bytes address alt.endpoints
    → IsPlan address frame_size (plan_for frame_size alt (endpoint_bytes address alt.endpoints))
plan_for-IsPlan address frame_size alt some_frame some_bytes =
    let (some_packets, few, one, whole) =
      packets_bounds frame_size (endpoint_bytes address alt.endpoints) some_frame some_bytes in
    record {
      size = refl;
      some_bytes = some_bytes;
      some_packets = some_packets;
      few = few;
      total = refl;
      one_frame = one;
      whole_frame = whole;
    }

choose_fits :
    (address frame_size need : ℕ) (best : Option AltSetting) (max_bpp : ℕ)
    (before : List AltSetting) (alt : AltSetting) (alts : List AltSetting)
    → AllBelow address need before
    → need ≤ endpoint_bytes address alt.endpoints
    → 0 < endpoint_bytes address alt.endpoints
    → choose address frame_size need best max_bpp (before ++ (alt ∷ alts))
      ≡ done (some (plan_for frame_size alt (endpoint_bytes address alt.endpoints)))
unfolding choose
choose_fits address frame_size need best max_bpp [] alt alts all enough some_bytes = ground arith
choose_fits address frame_size need best max_bpp (b ∷ before) alt alts (below_then few all) enough
      some_bytes =
    ground (
      arith,
      few,
      choose_fits address frame_size need
          (if ltb max_bpp (endpoint_bytes address b.endpoints) then some b else best)
          (if ltb max_bpp (endpoint_bytes address b.endpoints)
            then endpoint_bytes address b.endpoints
            else max_bpp)
          before alt alts all enough some_bytes,
    )

-- The first setting whose packets hold what the format needs is taken, whatever stands behind it,
-- with at least one packet and at most 32 in a transfer, a transfer less than a packet longer than
-- the frame, and long enough for it unless it has 32 packets. The frame size is not 0, nor is that
-- of the packets.
pub choose_first :
    (address frame_size need : ℕ) (before : List AltSetting) (alt : AltSetting)
    (alts : List AltSetting)
    → 0 < frame_size
    → AllBelow address need before
    → need ≤ endpoint_bytes address alt.endpoints
    → 0 < endpoint_bytes address alt.endpoints
    → (p : Plan) × (choose address frame_size need none 0 (before ++ (alt ∷ alts)) ≡ done (some p))
      × (p.setting ≡ alt)
      × IsPlan address frame_size p
choose_first address frame_size need before alt alts some_frame all enough some_bytes = (
  plan_for frame_size alt (endpoint_bytes address alt.endpoints),
  choose_fits address frame_size need none 0 before alt alts all enough some_bytes,
  refl,
  plan_for-IsPlan address frame_size alt some_frame some_bytes,
)
