-- ===== src/Context/Stations.antt =====
-- The pool of stations (context/context.go, amf_ran.go). A net.Conn is a number.
pub mod Lookup
use amf_cdac.Base.{
  ℕ, suc, String, Bool, true, false, Option, none, some, [], load, store, delete, ◌==◌, string_eq,
  if◌then◌else◌,
}
use amf_cdac.Types.{access_empty}
use amf_cdac.Context.State.{AmfRan, RanKey, by_conn, by_id, ran_key_eq, World, update}
use amf_cdac.Context.Ran.{remove_all_ue_in_ran}

-- AmfRan{}
abbrev pub zero_ran : AmfRan
zero_ran = record {
  ran_present = 0;
  an_type = access_empty;
  gnb_ip = "";
  gnb_id = "";
  conn = none;
  ran_ue_list = [];
}

-- A new station, stored under a key.
unfoldable pub insert_ran : World → RanKey → AmfRan → World
insert_ran w key ran = record w {
  rans = update w.rans w.next_ran ran;
  next_ran = suc w.next_ran;
  amf_ran_pool = store w.amf_ran_pool key w.next_ran;
}

-- context.NewAmfRan(conn), where `address` is conn.RemoteAddr().String().
unfoldable pub new_amf_ran : World → ℕ → String → World
unfolding insert_ran
new_amf_ran w conn address =
    insert_ran w (by_conn conn) (record zero_ran { conn = some conn; gnb_ip = address })

-- context.NewAmfRanAddr(remoteAddr)
unfoldable pub new_amf_ran_addr : World → String → World
unfolding insert_ran
new_amf_ran_addr w remote_addr =
    insert_ran w (by_id remote_addr) (record zero_ran { gnb_ip = remote_addr })

-- context.NewAmfRanId(GnbId)
unfoldable pub new_amf_ran_id : World → String → World
unfolding insert_ran
new_amf_ran_id w gnb_id = insert_ran w (by_id gnb_id) (record zero_ran { gnb_id = gnb_id })

-- context.AmfRanFindByConn(conn), context.AmfRanFindByGnbId(gnbId)
unfoldable pub amf_ran_find_by_conn : World → ℕ → Option ℕ
amf_ran_find_by_conn w conn = load w.amf_ran_pool (by_conn conn)

unfoldable pub amf_ran_find_by_gnb_id : World → String → Option ℕ
amf_ran_find_by_gnb_id w gnb_id = load w.amf_ran_pool (by_id gnb_id)

-- context.DeleteAmfRan(conn) of an interface that may be nil, context.DeleteAmfRanId(gnbId)
unfoldable pub delete_amf_ran : World → Option ℕ → World
delete_amf_ran w none = w
delete_amf_ran w (some conn) = record w { amf_ran_pool = delete w.amf_ran_pool (by_conn conn) }

unfoldable pub delete_amf_ran_id : World → String → World
delete_amf_ran_id w gnb_id = record w { amf_ran_pool = delete w.amf_ran_pool (by_id gnb_id) }

-- The end of ran.Remove(), which takes the station out of the pool.
unfoldable pub forget_ran : World → AmfRan → World
unfolding delete_amf_ran delete_amf_ran_id
forget_ran w ran =
    if w.enable_sctp_lb
    then if ran.gnb_id == "" then w else delete_amf_ran_id w ran.gnb_id
    else delete_amf_ran w ran.conn

-- ran.Remove()
unfoldable pub remove_amf_ran : World → ℕ → World
unfolding forget_ran
remove_amf_ran w r = let w' = remove_all_ue_in_ran w r in forget_ran w' (w'.rans r)
