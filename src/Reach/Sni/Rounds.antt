-- ===== src/Reach/Sni/Rounds.antt =====
-- The loops of the parser end: every round takes bytes off the front.
use vulos_relay.Base.{
  ℕ, zero, suc, ◌+◌, ◌*◌, ◌≤◌, ◌≡◌, refl, some, [], ◌∷◌, arith, Bytes, length, length-drop,
}
use vulos_relay.Base.Result.{Result, err}
use vulos_relay.Reach.Sni.{
  SniError, no_sni, Round, answer, go_on, name_entry, extension, scan, take_u8, take_u16,
  take_bytes, parse_server_name_extension,
}

-- A round that goes on leaves fewer bytes.
abbrev pub Shrinks : (Bytes → Round) → Type 0
Shrinks round = (b : ℕ) (s s' : Bytes) → round (b ∷ s) ≡ go_on s' → length s' ≤ length s

pub scan_total :
    (round : Bytes → Round)
    → Shrinks round
    → (fuel : ℕ) (s : Bytes) → length s ≤ fuel
    → (r : Result SniError Bytes) × (scan fuel round s ≡ some r)
unfolding scan
scan_total round shrinks fuel [] h = (err no_sni, refl)
scan_total round shrinks zero (b ∷ s) h = absurd (omega arith)
scan_total round shrinks (suc fuel) (b ∷ s) h =
    go (scan_total round shrinks fuel) (round (b ∷ s)) refl
  where
    go :
        ((s' : Bytes)
          → length s' ≤ fuel
          → (r : Result SniError Bytes) × (scan fuel round s' ≡ some r))
        → (q : Round) → round (b ∷ s) ≡ q
        → (r : Result SniError Bytes) × (scan (suc fuel) round (b ∷ s) ≡ some r)
    go ih (answer r) e = (r, rw (e, scan))
    go ih (go_on s') e =
        let (r, e') = ih s' (omega (arith, shrinks b s s' e)) in (r, rw (e, scan) e')

name_entry-Shrinks : Shrinks name_entry
unfolding name_entry take_u8 take_u16 take_bytes
name_entry-Shrinks b [] s' e = cc
name_entry-Shrinks b (c ∷ []) s' e = cc
name_entry-Shrinks b (c ∷ d ∷ s) s' e = ground (arith, length-drop (c * 256 + d) s)

extension-Shrinks : (on_name : Bytes → Result SniError Bytes) → Shrinks (extension on_name)
unfolding extension take_u16 take_bytes
extension-Shrinks on_name b [] s' e = cc
extension-Shrinks on_name b (c ∷ []) s' e = cc
extension-Shrinks on_name b (c ∷ d ∷ []) s' e = cc
extension-Shrinks on_name b (c ∷ d ∷ l ∷ s) s' e = ground (arith, length-drop (d * 256 + l) s)

-- Both loops of the parser, over the extensions and over the server names, end with an answer within
-- as many rounds as there are bytes.
parser_loops_total :
    (s : Bytes)
    → ((r : Result SniError Bytes) × (scan (length s) name_entry s ≡ some r))
      × ((r : Result SniError Bytes) × (scan (length s) (extension parse_server_name_extension) s
            ≡ some r))
parser_loops_total s = (
  scan_total name_entry name_entry-Shrinks (length s) s (omega arith),
  scan_total (extension parse_server_name_extension) (extension-Shrinks parse_server_name_extension)
      (length s) s (omega arith),
)
