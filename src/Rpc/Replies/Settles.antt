-- ===== src/Rpc/Replies/Settles.antt =====
-- A request of one's own (pygls/protocol/json_rpc.py) ends with the first reply to it.
use pygls.Prelude.Dict
use pygls.Rpc.{id_eq}
