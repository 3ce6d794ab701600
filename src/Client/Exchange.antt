-- ===== src/Client/Exchange.antt =====
-- The messages of the client (ppcnn/ppcnn_client/ppcnn_client.cpp) as the callback functions of the server
-- read them (ppcnn/ppcnn_server/ppcnn_server_callback_function.cpp), and the answers as the client reads
-- them.
pub mod Parts
pub mod Keys
pub mod Query
pub mod Results
