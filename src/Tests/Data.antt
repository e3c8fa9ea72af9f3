-- ===== src/Tests/Data.antt =====
-- A digest, a client and servers that the tests share.
use splatit.Base.{ℕ, ◌+◌, ◌%◌, true, none, List, [], ◌∷◌, length, replicate}
use splatit.Base.Bytes.{Bytes}
use splatit.Crypto.{Digest}
use splatit.Prudp.Packet.{Packet, new_packet, new_encoder, data_type, flag_reliable, flag_need_ack}
use splatit.Prudp.Server.{PrudpAddress, Server, ClientInfo, DelayedPacket, Config, Env}

-- Sixteen bytes from any data.
abbrev pub toy_digest : Digest
toy_digest = record {
  md5 = λ d. replicate 16 7;
  hmac_md5 = λ k d. (length d % 256) ∷ replicate 15 (length k % 256);
}

abbrev pub toy_env : Env
toy_env = record {
  digest = toy_digest;
  system_now = 1000;
  to_time = λ y mo d h mi s. y;
  data_func = λ a v id d s. (s, none);
}

abbrev pub toy_config : Config
toy_config = record {
  major_version = 0;
  access_key = 1 ∷ 2 ∷ [];
  friends = true;
  minor_version = 0;
  supported_functions = 0;
  max_substream_id = 0;
  init_seq_id_unreliable = 1;
  auth = true;
  pid = 2;
  secure_passwd = [];
  ports = 1 ∷ [];
}

abbrev pub toy_address : PrudpAddress
toy_address = record {
  address = record { a = 127; b = 0; c = 0; d = 1; port = 1000 };
  v_port = 15;
  stream_type = 10;
  src_v_port = 1;
  src_stream_type = 10;
}

abbrev pub other_address : PrudpAddress
other_address = record toy_address { v_port = 14 }

abbrev pub data_with : ℕ → ℕ → Bytes → Packet
data_with seq_id fragment_id d = record new_packet {
  type = data_type;
  flags = flag_reliable + flag_need_ack;
  seq_id = seq_id;
  fragment_id = fragment_id;
  encrypted_data = d;
}

abbrev pub toy_client : List Packet → ℕ → List (ℕ × ℕ) → ClientInfo
toy_client queue recv waiting = record {
  encoders = new_encoder (1 ∷ []) ∷ [];
  encoder_key = 1 ∷ [];
  minor_version = 0;
  supported_functions = 0;
  unreliable_seq_id = 1;
  remote_signature = 9 ∷ 9 ∷ 9 ∷ 9 ∷ [];
  session_id = 3;
  pid = 77;
  session_key = [];
  substreams =
      record { seq_id = 1; recv_seq_id = recv; packet_queue = queue; non_acked_packets = waiting }
      ∷ [];
  next_ping = 500;
}

abbrev pub toy_server : ClientInfo → List (ℕ × DelayedPacket) → Server
toy_server c delayed = record {
  config = toy_config;
  clients = (toy_address, c) ∷ [];
  pid_to_addr = [];
  next_session_id = 4;
  proxy_map = [];
  delayed_packets = delayed;
  events = [];
}
