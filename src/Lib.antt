-- ===== src/Lib.antt =====
-- PP-CNN evaluates a convolutional network on images that a client has encrypted with CKKS. A query
-- comes in through the server's callbacks, waits in a queue, and is computed by a thread, which builds
-- the layers of the trained model for the options of the query, runs them on the encrypted images, and
-- leaves the result in a second queue, from which the client fetches it.
--
-- The files:
-- - Seal: SEAL as a parameter, which is not code of the repository. A ciphertext has a level (the
--   number of primes that were dropped), a scale, and a message in exact arithmetic; each call has the
--   laws that SEAL documents. The noise, the slots and the rounding are not modelled.
-- - Cnn/Geometry: the window of a layer along an axis, on words of 64 and 32 bits; Cnn/Tensor:
--   `Ciphertext3D`; Cnn/Options and Cnn/Floats: ppcnn/ppcnn_share/cnn_utils/opt_option.cpp and define.h.
-- - Cnn/Conv2d, Cnn/Dense, Cnn/BatchNormalization, Cnn/Activation, Cnn/AveragePooling2d, Cnn/Flatten
--   and Cnn/Network: the files of the same names in ppcnn/ppcnn_server/cnn. A layer is a record of its
--   members, `x_new` is the constructor of `x`, and `x_forward` its `forward`. The fused layers inherit
--   `forward`. The cells of an output do not depend on one another, so a parallel loop is a table.
-- - Cnn/Build: ppcnn/ppcnn_server/cnn/load_model.cpp and `BuildNetwork` of
--   ppcnn/ppcnn_server/ppcnn_server_calcthread.cpp. The JSON and the HDF5 file are parameters; the
--   global variables `next_layer_in_…` are passed along.
-- - Share: ppcnn/ppcnn_share. Share/Streams is a `std::iostream` over a `stdsc::BufferStream`, with the
--   representation of structs in memory and `save` and `load` of SEAL as records of operations and
--   laws; Share/PlainData, Share/EncData, Share/SealUtility, Share/Messages, Share/Utility and
--   Share/Config: the files of those names.
-- - Client: ppcnn/ppcnn_client. Client/Requests is ppcnn_client.cpp and the thread that waits for a
--   result, Client/KeyFiles and Client/KeyContainer are ppcnn_client_keycontainer.cpp, and
--   Client/Exchange puts the messages and the callback functions of the server together.
-- - Demo: demo/client/main.cpp and `encryptImages` of ppcnn/ppcnn_share/cnn_utils/helper_functions.cpp.
-- - Server: the queues (ppcnn/ppcnn_share/ppcnn_concurrent_mapqueue.hpp), `CalcManager`, `KeyContainer`,
--   `compute` and `exec`; Server/Callbacks, the callback functions on the bytes of the messages; and
--   Server/System, the server as a step relation over the manager: each test and each locked section
--   of the queues is a step, so that callbacks and threads interleave. Server/CalcManager and
--   Server/MapQueue are the operations as one caller sees them. What a thread computes is a relation;
--   in Server/System/Execution it is one run of `exec` on the global variables, with no other between.
-- - Samples: an implementation of the interface to SEAL, and runs of the code on it.
--
-- An exception, and an access behind the end of an array, is an error value. The loops of the layers
-- have a bound that the code knows, and are structural recursion. `split` is given one round more than
-- the text has characters, and each round takes one or more. `pop_result` waits as long as there is
-- no result: its rounds are a number, of which one more than that of the round of the result is
-- enough. `ceil` of a quotient of two `float` is the exact ceiling for sizes up to 2 ^ 24, and left open
-- above. `float` arithmetic is a parameter. The sockets deliver a buffer as it is sent. A `size_t` has eight
-- bytes, of which the lowest is first.
-- Not modelled: the logging and the debug files; the memory that the `memcpy` of ciphertexts in
-- `compute` shares, and torn reads of what is not under a mutex; `EncData::encrypt` and `decrypt`, which nothing calls;
-- the text form of the parameters; the dataset readers, which call third-party headers; and the
-- command lines and the set-up of the demo programs and of the server process.
pub mod Prelude
pub mod Seal
pub mod Cnn
pub mod Server
pub mod Share
pub mod Client
pub mod Demo
pub mod Samples
