-- ===== src/Cnn.antt =====
-- The network of ppcnn/ppcnn_server/cnn.
pub mod Geometry
pub mod Tensor
pub mod Sums
pub mod Options
pub mod Conv2d
pub mod Dense
pub mod BatchNormalization
pub mod Activation
pub mod Floats
pub mod AveragePooling2d
pub mod Flatten
pub mod Network
pub mod Build
