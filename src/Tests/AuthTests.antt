-- ===== src/Tests/AuthTests.antt =====
-- The modules of server/auth/ at concrete inputs.
use ob2_turbo_quant.Common.{
  ℕ, ◌+◌, ◌≤◌, max, ◌≡◌, refl, none, some, [], ◌∷◌, ◌++◌, arith, Text, text_key, text_eq, codes,
  index_of, find,
}
use ob2_turbo_quant.Common.JsMap
use ob2_turbo_quant.Auth.TimingSafe.{timing_safe_equal, diff_from}
use ob2_turbo_quant.Auth.RateLimit.Laws.{admitted, quota}
use ob2_turbo_quant.Auth.Sessions.{create_session, resolve_session, token_id}
use ob2_turbo_quant.Auth.Sessions.Laws.{IsLive, resolve-create, resolve_sound}
use ob2_turbo_quant.Auth.ResetTokens.{reset, load_if_changed, generate_token, consume_token}
use ob2_turbo_quant.Auth.ResetTokens.Laws.{consume-consume, consume-generate}
use ob2_turbo_quant.Tests.{test_sign, same_text, bob_session, one_session, one_token}

quota_example :
    admitted
      (codes "k")
      (record { key = codes "k"; limit = 1; window_ms = 10; now = 0 }
        ∷ record { key = codes "k"; limit = 1; window_ms = 10; now = 3 }
        ∷ record { key = codes "j"; limit = 1; window_ms = 10; now = 4 }
        ∷ [])
      []
    ≤ max 1 1
unfolding JsMap.get
quota_example =
    quota (record { key = codes "k"; limit = 1; window_ms = 10; now = 0 })
      (record { key = codes "k"; limit = 1; window_ms = 10; now = 3 }
        ∷ record { key = codes "j"; limit = 1; window_ms = 10; now = 4 }
        ∷ [])
      [] tt ((λ e. (omega arith, omega arith)), ((λ e. (omega arith, omega arith)), tt))

resolve-create_example :
    let (st, token, expires_at) =
      create_session test_sign 100 (codes "x") (codes "bob") one_session in
    resolve_session test_sign 60100 token st
    ≡ (some (record { username = codes "bob"; expires_at = expires_at; created_at = 100 }), st)
resolve-create_example =
    resolve-create test_sign 100 60100 (codes "x") (codes "bob") one_session (refl, tt)
      (ground arith) (ground arith) (omega arith)

resolve_sound_example :
    (id : Text) × (codes "id.hid" ≡ id ++ (b'.' ∷ test_sign id))
    × (token_id (codes "id.hid") ≡ some id)
    × IsLive 5000 id bob_session one_session
unfolding resolve_session timing_safe_equal diff_from index_of JsMap.get text_eq
resolve_sound_example = resolve_sound test_sign 5000 (codes "id.hid") one_session bob_session refl

consume-consume_example :
    (consume_token same_text
      (codes "t")
      200
      (consume_token same_text (codes "t") 100 one_token).1).0
    ≡ none
unfolding load_if_changed find
consume-consume_example = consume-consume same_text (codes "t") 100 200 one_token (refl, tt)

consume-generate_example :
    (consume_token same_text
      (codes "u")
      200
      (generate_token same_text (codes "u") 100 (codes "bob") reset one_token).0).0
    ≡ some (record { username = codes "bob"; kind = reset })
unfolding load_if_changed find text_eq
consume-generate_example =
    consume-generate same_text (codes "u") (codes "bob") reset 100 200 one_token refl (omega arith)

abbrev one_digit : ℕ → Text
one_digit n = (48 + n) ∷ []
