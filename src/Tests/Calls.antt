-- ===== src/Tests/Calls.antt =====
-- Sequences of calls, tried out.
use mathlib.Core.Path.{subst}
use vantiq_sdk_micro.Base.{
  ℕ, suc, ◌+◌, ◌≤◌, ◌≡◌, refl, ap, sym, ◌∙◌, false, true, some, List, [], ◌∷◌, Bytes, codes, arith,
  is_text→IsText, c_str,
}
use vantiq_sdk_micro.Memory.{World, at_live, ok}
use vantiq_sdk_micro.Memory.Returns.{Returns}
use vantiq_sdk_micro.Number.{atoi}
use vantiq_sdk_micro.Client.{Client, Handle, vc_is_valid}
use vantiq_sdk_micro.Client.Callbacks.{equal_nocase}
use vantiq_sdk_micro.Client.Callbacks.Headers.{counted}
use vantiq_sdk_micro.Client.Transfer.Exchange.{exchange}
use vantiq_sdk_micro.Client.Request.Verbs.{IsUrl}
use vantiq_sdk_micro.Client.Session.Login.{Opened, opening}
use vantiq_sdk_micro.Api.Calls.{Call, insert, update, publish, calls, Ready}
use vantiq_sdk_micro.Api.Calls.Sequence.{Bounded, Followed, moved_on, calls-Followed}
use vantiq_sdk_micro.Api.Calls.Session.{session, session-Returns}
use vantiq_sdk_micro.Api.Calls.Rejected.{calls-rejected}
use vantiq_sdk_micro.Tests.{server, start_world, client, client-IsClient}

shown : (n : ℕ) → counted (codes "X-Total-Count: 3") n ≡ some 3
unfolding equal_nocase atoi c_str
shown n = refl

client-valid : vc_is_valid (some client) ≡ true
unfolding vc_is_valid
client-valid = refl

abbrev json : Bytes
json = codes "{\"a\":1}"

abbrev target : Bytes
target = codes "http://s/r"

target-IsUrl : IsUrl target
target-IsUrl = record { text = is_text→IsText target refl; small = omega arith }

-- Two calls: the second finds what the first has left of the client.
abbrev two_calls : List Call
two_calls = insert (codes "/r") json 7 ∷ update (codes "/r") json 7 ∷ []

first-Ready : Ready server (insert (codes "/r") json 7) client start_world
first-Ready = record {
  is_call = (omega arith, omega arith);
  is_url = target-IsUrl;
  served = (omega arith, (omega arith, (3, shown 0), (omega arith, tt)));
}

second-Ready :
    (d : Client) (v : World) → Ready server (update (codes "/r") json 7) (moved_on client d) v
second-Ready d v = record {
  is_call = (omega arith, omega arith);
  is_url = target-IsUrl;
  served = (omega arith, (omega arith, (3, shown d.result_count), (omega arith, tt)));
}

two_calls-Bounded : Bounded server two_calls client start_world
two_calls-Bounded = (
  first-Ready,
  λ d v f. (
    subst (λ c. Ready server (update (codes "/r") json 7) c v) (sym f.same) (second-Ready d v),
    λ e u g. tt,
  ),
)

calls-Followed_example :
    Returns
      (Followed server two_calls client start_world)
      (calls server two_calls (some client) start_world)
calls-Followed_example =
    calls-Followed server two_calls client start_world refl client-valid client-IsClient
      two_calls-Bounded

abbrev stale : Handle
stale = some (record client { magic = 0 })

stale-invalid : vc_is_valid stale ≡ false
unfolding vc_is_valid
stale-invalid = refl

calls-rejected_example :
    calls server (publish (codes "t") json 7 ∷ insert (codes "/r") json 7 ∷ []) stale start_world
    ≡ ok stale (at_live start_world 7)
calls-rejected_example =
    calls-rejected server stale stale-invalid
      (publish (codes "t") json 7 ∷ insert (codes "/r") json 7 ∷ []) start_world refl
      ((omega arith, omega arith), (tt, tt))

-- The call of a client whose URL is that of the session.
one_call-Bounded :
    (c : Client) (u : World)
    → c.server_url ≡ codes "http://s"
    → Bounded server (insert (codes "/r") json 7 ∷ []) c u
one_call-Bounded c u e = (
  record {
    is_call = (omega arith, omega arith);
    is_url = rw e target-IsUrl;
    served = (omega arith, (omega arith, (3, shown c.result_count), (omega arith, tt)));
  },
  λ d v f. tt,
)

Opened-url :
    (c : Client) (u : World)
    → Opened server
        (codes "http://s/")
        (codes "t0k")
        1
        start_world
        (opening server b'h' (codes "ttp://s/") (codes "t0k") 1 start_world refl)
        (some c)
        u
    → c.server_url ≡ codes "http://s"
unfolding exchange
Opened-url c u q =
    let handle : some c ≡ some q.client = q.handle in
    let same : c ≡ q.client = cc in ap (λ (d : Client). d.server_url) same ∙ q.server

session-Returns_example :
    Returns
      (λ r u.
        (n : ℕ) × (n ≤ 1)
        × (u ≡ record start_world { live = suc (n + 5); app_calls = u.app_calls }))
      (session server
        (codes "http://s/")
        (codes "t0k")
        1
        (insert (codes "/r") json 7 ∷ [])
        start_world)
unfolding exchange
session-Returns_example =
    session-Returns server b'h' (codes "ttp://s/") (codes "t0k") 1 (insert (codes "/r") json 7 ∷ [])
      start_world refl refl refl (is_text→IsText (codes "http://s/") refl)
      (is_text→IsText (codes "t0k") refl)
      (omega arith, (omega arith, (3, shown 0), (omega arith, tt))) refl
      λ c u q. one_call-Bounded c u (Opened-url c u q)
