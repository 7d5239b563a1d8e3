-- ===== src/Exchange/Setup.antt =====
-- The sizes and the command line of src/main.cpp. `atoi` is the standard library's, and a text is
-- what the shell gives.
use nano_exchange.Base.{ℕ, ◌*◌, Option, none, some, List, ◌∷◌, get_elem?}

abbrev pub num_tickers : ℕ
num_tickers = 4

abbrev pub queue_size : ℕ
queue_size = 65536

abbrev pub logger_queue_size : ℕ
logger_queue_size = 4 * 1024 * 1024

abbrev pub engine_pool_size : ℕ
engine_pool_size = 65536

abbrev pub fifo_pending : ℕ
fifo_pending = 10000

abbrev pub token_pool_size : ℕ
token_pool_size = 1000000

abbrev pub snapshot_q_size : ℕ
snapshot_q_size = 65536

-- A value of C++'s int: `negsuc n` is -(n + 1).
pub data ℤ : Type 0 where
  pos : ℕ → ℤ
  negsuc : ℕ → ℤ

module _ {Text : Type 0} (atoi : Text → ℤ) where
  -- `(argc > k) ? std::atoi(argv[k]) : n`, on the arguments from the seventh on.
  abbrev pub core : List Text → ℕ → ℕ → ℤ
  core args k n = elim (get_elem? args k) [ none ↦ pos n | some t ↦ atoi t ]

pub record Options (Text : Type 0) : Type 0 where
  pub gateway_iface : Text
  pub gateway_port : ℤ
  pub incremental_ip : Text
  pub incremental_port : ℤ
  pub snapshot_tcp_port : ℤ
  pub mcast_iface : Text
  pub core_me : ℤ
  pub core_gateway : ℤ
  pub core_publisher : ℤ
  pub core_streamer : ℤ
  pub core_logger : ℤ

-- What main reads of `argv`, whose first entry is the program; `none` is the usage, at fewer than
-- seven.
unfoldable pub read_options : {Text : Type 0} → (Text → ℤ) → List Text → Option (Options Text)
read_options atoi (prog ∷ iface ∷ port ∷ ip ∷ inc_port ∷ tcp_port ∷ mcast ∷ args) = some (record {
  gateway_iface = iface;
  gateway_port = atoi port;
  incremental_ip = ip;
  incremental_port = atoi inc_port;
  snapshot_tcp_port = atoi tcp_port;
  mcast_iface = mcast;
  core_me = core atoi args 0 1;
  core_gateway = core atoi args 1 2;
  core_publisher = core atoi args 2 4;
  core_streamer = core atoi args 3 6;
  core_logger = core atoi args 4 8;
})
read_options atoi argv = none
