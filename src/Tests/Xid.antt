-- ===== src/Tests/Xid.antt =====
-- xid.rs at concrete inputs.
use softmodem_rs.Prelude.{◌≡◌, some, none, arith, refl}
use softmodem_rs.Xid.{Xid, bytes, parse}
use softmodem_rs.Xid.ParameterGroup.{IsXid}
use softmodem_rs.Xid.RoundTrip.{xid_round_trip}

abbrev defaults : Xid
defaults = record {
  functions = 0;
  n401_tx = some 128;
  n401_rx = some 128;
  k_tx = some 15;
  k_rx = none;
  compression = some (record { directions = 3; codewords = some 2048; max_string = some 32 });
}

defaults-IsXid : IsXid defaults
defaults-IsXid = record {
  functions_lt = omega arith;
  functions_other = refl;
  n401_tx_lt = omega arith;
  n401_rx_lt = omega arith;
  k_tx_lt = omega arith;
  k_rx_lt = tt;
  compression_ok = omega arith;
}

xid_round_trip_example : parse (bytes defaults) ≡ some defaults
xid_round_trip_example = xid_round_trip defaults defaults-IsXid
