-- ===== src/Bytecode/Agreement.antt =====
-- The bytecode of `NewProgram` beside `xdp_sock_prog`, on the same maps.
use defrizer.Endian.{Endian}
use defrizer.Uapi.{Uapi}
use defrizer.Program.Sock.{SockHelpers}
use defrizer.Bytecode.{MapHelpers}

-- The helpers of `xdp_sock_prog`, for maps by descriptors.
abbrev pub helpers_of : {W : Type 0} → SockHelpers W → MapHelpers W
helpers_of h = record {
  map_lookup_elem = λ w fd key. h.map_lookup_elem w key;
  read_int = h.read_int;
  redirect_map = λ w fd key flags. h.redirect_map w key flags;
}
