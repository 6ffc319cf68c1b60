-- ===== src/FormatProcessor/H265/Examples.antt =====
-- An H265 track whose access unit goes to a new SPS and back.
use mediamtx.Base.{◌≡◌, ◌≢◌, refl, List, [], ◌∷◌, none, some, arith}
use mediamtx.Base.Text.{dec_text}
use native.Mathlib.Decide.{ℕ_discrete}
use mediamtx.FormatProcessor.H264.{Nalu}
use mediamtx.FormatProcessor.H265.{
  H265Types, H265Params, rtp_h265_extract_params, update_h265_from_au,
}
use mediamtx.FormatProcessor.H265.Parameters.{
  AreDistinct, rtp_h265_extract_params_total, update_h265_from_au_lem,
}

abbrev types : H265Types
types = record { type_vps = 32; type_sps = 33; type_pps = 34; type_aggregation_unit = 48 }

types-AreDistinct : AreDistinct types
types-AreDistinct = record {
  vps_sps = λ e. omega (arith, e);
  vps_pps = λ e. omega (arith, e);
  sps_pps = λ e. omega (arith, e);
}

abbrev old_sps : Nalu
old_sps = 66 ∷ (1 ∷ [])

abbrev new_sps : Nalu
new_sps = 66 ∷ (2 ∷ [])

abbrev old_params : H265Params
old_params = record { vps = none; sps = some old_sps; pps = none }

abbrev access_unit : List Nalu
access_unit = new_sps ∷ (old_sps ∷ [])

-- The last SPS of the access unit is not the one that the track has afterwards.
update_h265_from_au_lem_example :
    update_h265_from_au types access_unit old_params
    ≡ some (record old_params { sps = some new_sps })
unfolding dec_text ℕ_discrete
update_h265_from_au_lem_example =
    update_h265_from_au_lem types access_unit old_params types-AreDistinct (refl, (refl, tt))

rtp_h265_extract_params_total_example :
    rtp_h265_extract_params types (96 ∷ (1 ∷ (0 ∷ (9 ∷ [])))) ≢ none
rtp_h265_extract_params_total_example =
    rtp_h265_extract_params_total types (96 ∷ (1 ∷ (0 ∷ (9 ∷ []))))
