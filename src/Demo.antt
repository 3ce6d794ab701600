-- ===== src/Demo.antt =====
-- The demo client (demo/client/main.cpp), and how it packs the images
-- (ppcnn/ppcnn_share/cnn_utils/helper_functions.cpp).
pub mod Images
pub mod Layout
pub mod Packing
pub mod Steps
