-- ===== src/Bsp.antt =====
-- pysim/pySim/esim/bsp.py: the protection of bound profile packages (BSP). Padding has the padding
-- of blocks, Algo the two algorithms and the protection of one segment, Stream the loops over
-- segments, Keys the derivation of the keys.
pub mod Padding
pub mod Algo
pub mod Keys
pub mod Stream
pub mod Peer
pub mod RoundTrip
pub mod Sizes
pub mod Toy
mod Examples
