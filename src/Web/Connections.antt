-- ===== src/Web/Connections.antt =====
-- internal/web/connections.go: the handlers that call the connection manager.
use espur.Base.{Option, none, some, Bytes, codes, is_empty, trim_space, if◌then◌else◌, []}
use espur.Connman.{Manager, status}
use espur.Connman.Secrets.{World}
use espur.Connman.Calls.{Answer, add_discord, add_wechat, enable, disable, remove}
use espur.Web.{Reply}

-- The manager is none until SetConnManager.
abbrev pub Reaction : Type 0
Reaction = Reply × Option Manager

abbrev unavailable : Reaction
unavailable = (Reply.status 503, none)

abbrev flashed : Answer → Reaction
flashed (none, m) = (Reply.redirect (codes "ok"), some m)
flashed (some e, m) = (Reply.redirect (codes "danger"), some m)

unfoldable pub conn_add_discord : World → Bytes → Option Manager → Reaction
conn_add_discord w given none = unavailable
conn_add_discord w given (some m) =
    let token = trim_space given in
    if is_empty token
    then (Reply.redirect (codes "danger"), some m)
    else flashed (add_discord w token m)

unfoldable pub conn_add_wechat : World → Option Manager → Reaction
conn_add_wechat w none = unavailable
conn_add_wechat w (some m) = flashed (add_wechat w m)

unfoldable pub conn_mutate : (Bytes → Manager → Answer) → Bytes → Option Manager → Reaction
conn_mutate f id none = unavailable
conn_mutate f id (some m) = flashed (f id m)

unfoldable pub conn_enable : World → Bytes → Option Manager → Reaction
unfolding conn_mutate
conn_enable w id m = conn_mutate (enable w) id m

unfoldable pub conn_disable : World → Bytes → Option Manager → Reaction
unfolding conn_mutate
conn_disable w id m = conn_mutate (disable w) id m

unfoldable pub conn_delete : World → Bytes → Option Manager → Reaction
unfolding conn_mutate
conn_delete w id m = conn_mutate (remove w) id m

abbrev drawn : Option Bytes → Reply × Bytes
drawn none = (Reply.status 500, [])
drawn (some png) = (Reply.status 200, png)

-- `encode` draws a QR code, none for an error. The answer is a status and the picture.
unfoldable pub conn_qr : (Bytes → Option Bytes) → Bytes → Option Manager → Reply × Bytes
conn_qr encode id none = (Reply.status 503, [])
conn_qr encode id (some m) =
    if is_empty (status id m).1 then (Reply.status 404, []) else drawn (encode (status id m).1)
